-- ===== src/Aggregator.antt =====
-- The page pool of redis-2.6.16/src/memory_aggregator.c and memory_aggregator.h.
-- Pointers are numbers with 0 for NULL; `nodes` is the part of the C heap that holds `page_state`
-- structs, and reading or writing a struct that is not allocated is a `fault`. What mmap and
-- malloc answer is an argument of the operations. `debug` is empty (NDEBUG is defined).
pub mod Links
pub mod Entry
pub mod Owned
pub mod Exhausted
mod Tests
use project.Prelude.{
  ℕ, zero, suc, ◌+◌, ◌-◌, ◌*◌, ◌/◌, ◌%◌, ◌^◌, Option, none, some, List, [], ◌∷◌, ltb, leb, ◌==◌,
  if◌then◌else◌,
}
use project.Prelude.Int.{ℤ, pos, negsuc}

abbrev pub Ptr : Type 0
Ptr = ℕ

abbrev pub null : Ptr
null = 0

abbrev pub page_size : ℕ
page_size = 4096

-- `current_offset` is the bit pattern of the C int.
pub record PageState : Type 0 where
  pub p_page : ℕ
  pub current_offset : ℕ
  pub prev : Ptr
  pub next : Ptr

abbrev pub Nodes : Type 0
Nodes = Ptr → Option PageState

abbrev pub write : Nodes → Ptr → Option PageState → Nodes
write h p c q = if p == q then c else h q

-- The three global variables and the heap.
pub record Pool : Type 0 where
  pub nodes : Nodes
  pub page_pool : Ptr
  pub free_page_count : ℕ
  pub page_pool_size : ℕ

-- `exit` is exit(-1); `unanswered` means that the list of the environment's answers ended.
pub data Run (A : Type 0) : Type 0 where
  ok : A → Pool → Run A
  fault : Run A
  exit : Run A
  unanswered : Run A

infixl 5 ◌>>=◌
abbrev pub ◌>>=◌ : {A B : Type 0} → Run A → (A → Pool → Run B) → Run B
ok a s >>= f = f a s
fault >>= f = fault
exit >>= f = exit
unanswered >>= f = unanswered

-- What mmap returns (`none` is MAP_FAILED) and what the malloc behind it returns.
pub record Answer : Type 0 where
  pub mapped : Option ℕ
  pub fresh : Ptr

-- int sign-extended to size_t.
abbrev pub to_size : ℕ → ℕ
to_size o = if ltb o (2 ^ 31) then o else o + (0xffff_ffff_0000_0000)

-- `page_pool->prev = new_page` for a pool that is not empty
pub set_prev : Nodes → Ptr → Ptr → Option Nodes
set_prev h p q = elim (h p) [
  | none ↦ none
  | some s ↦ some (write h p (some (record s { prev = q })))
]

pub set_next : Nodes → Ptr → Ptr → Option Nodes
set_next h p q = elim (h p) [
  | none ↦ none
  | some s ↦ some (write h p (some (record s { next = q })))
]

-- The return value is 0, -1 or -2.
pub data Status : Type 0 where
  done map_failed unaligned : Status

-- The new page goes to the head. The order of the writes is that of the source: the new struct is
-- there before the old head's `prev` is set, and its own `prev` is set last.
pub insert_page : ℕ → Ptr → Pool → Run Status
unfolding set_prev
insert_page page fresh s =
    let node : PageState = record {
      p_page = page;
      current_offset = 0;
      prev = s.page_pool;
      next = s.page_pool;
    } in
    let finish : Nodes → Run Status = λ h. ok done (record s {
      nodes = write h fresh (some node);
      page_pool = fresh;
      free_page_count = s.free_page_count + 1;
    }) in
    if fresh == null
    then fault
    else if s.page_pool == null
    then finish s.nodes
    else elim (set_prev (write s.nodes fresh (some node)) s.page_pool fresh) [
      | none ↦ fault
      | some h ↦ finish h
    ]

pub alloc_page : Answer → Pool → Run Status
unfolding insert_page
alloc_page a s = elim (a.mapped) [
  | none ↦ ok map_failed s
  | some page ↦ if page % page_size == 0 then insert_page page a.fresh s else ok unaligned s
]

-- A pointer is dereferenced only if it is not NULL.
pub deref : Nodes → Ptr → Option PageState
deref h p = if p == null then none else h p

pub remove_page : Ptr → Pool → Run Ptr
unfolding deref set_next
remove_page p s = elim (deref s.nodes p) [
  | none ↦ fault
  | some n ↦
      if n.prev == null
      then ok p (record s { nodes = write s.nodes p none; page_pool = n.next })
      else elim (set_next s.nodes n.prev n.next) [
        | none ↦ fault
        | some h ↦ ok p (record s { nodes = write h p none })
      ]
]

-- The loop that selects a page: at most `k` steps, none past the last page.
pub walk : ℕ → Nodes → Ptr → Option Ptr
unfolding deref
walk zero h p = some p
walk (suc k) h p = elim (deref h p) [
  | none ↦ none
  | some n ↦ let rest = walk k h n.next in if n.next == null then some p else rest
]

-- `offset + size` in size_t, and the int that keeps it.
abbrev pub end_of : ℕ → ℕ → ℕ
end_of offset size = (to_size offset + size) % 2 ^ 64

abbrev pub address : ℕ → ℕ → ℕ
address page offset = (page + to_size offset) % 2 ^ 64

-- The last two statements: the offset moves past the entry, and its address is returned.
pub take_entry : ℕ → ℕ → ℕ → ℕ → Ptr → Pool → Run ℕ
unfolding deref
take_entry page offset size extra sel s = elim (deref s.nodes sel) [
  | none ↦ fault
  | some n ↦ ok (address page offset) (record s {
    nodes =
        write s.nodes sel
          (some (record n { current_offset = ((end_of offset size + extra) % 2 ^ 64) % 2 ^ 32 }));
  })
]

-- The page's address and offset are read first. If the entry does not fit, the page is removed, a
-- page is allocated (its status is not read), and only `page_sel` and `offset` are read again.
pub place_entry : ℕ → ℕ → Answer → Ptr → Pool → Run ℕ
unfolding deref take_entry
place_entry size extra a sel s = elim (deref s.nodes sel) [
  | none ↦ fault
  | some n ↦
      if ltb page_size (end_of n.current_offset size)
      then (remove_page sel s >>= λ _ s₁. alloc_page a s₁ >>= λ _ s₂.
          elim (deref s₂.nodes s₂.page_pool) [
            | none ↦ fault
            | some n' ↦ take_entry n.p_page n'.current_offset size extra s₂.page_pool s₂
          ])
      else take_entry n.p_page n.current_offset size extra sel s
]

-- The bound is checked against the pages ever allocated; a negative index selects the head.
pub select : ℤ → Pool → Run Ptr
unfolding walk
select (negsuc k) s = ok s.page_pool s
select (pos i) s = if leb s.free_page_count i then exit else elim (walk i s.nodes s.page_pool) [
  | none ↦ fault
  | some sel ↦ if sel == null then exit else ok sel s
]

pub alloc_entry : ℕ → ℤ → Answer → Pool → Run ℕ
unfolding select place_entry
alloc_entry size page_i a s = select page_i s >>= λ sel s'. place_entry size 0 a sel s'

-- `local_offset` is 0.
pub alloc_entry_skip : ℕ → ℤ → Answer → Pool → Run ℕ
unfolding select place_entry
alloc_entry_skip size page_i a s = select page_i s >>= λ sel s'. place_entry size 0 a sel s'

-- `rand` is what rand() returns; a pool size of 0 divides by zero.
pub alloc_entry_random : ℕ → ℕ → Answer → Pool → Run ℕ
unfolding select place_entry
alloc_entry_random rand size a s =
    if s.page_pool_size == 0
    then fault
    else (select (pos (rand % s.page_pool_size)) s >>= λ sel s'. place_entry size 0 a sel s')

-- `todo` pages are wanted; each round takes one answer, and an unaligned page is tried again.
pub init_loop : ℕ → List Answer → Pool → Run Status
init_loop zero answers s = ok done s
init_loop (suc todo) [] s = unanswered
init_loop (suc todo) (a ∷ answers) s = elim (alloc_page a s) [
  | ok done s' ↦ init_loop todo answers s'
  | ok map_failed s' ↦ exit
  | ok unaligned s' ↦ init_loop (suc todo) answers s'
  | fault ↦ fault
  | exit ↦ exit
  | unanswered ↦ unanswered
]

pub init_page_pool : List Answer → Pool → Run Status
unfolding init_loop
init_page_pool answers s = init_loop s.page_pool_size answers s

-- ceil(num_requests * 24 / PAGE_SIZE): the quotient by a power of two is exact in a double.
pub set_page_pool_size : ℕ → Pool → Pool
set_page_pool_size num_requests s = record s {
  page_pool_size = (num_requests * 24 + (page_size - 1)) / page_size;
}
