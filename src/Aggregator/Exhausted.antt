-- ===== src/Aggregator/Exhausted.antt =====
-- `alloc_entry` of memory_aggregator.c where the selected page is full: the page is removed, a new
-- one is allocated, and the address is computed from the old page.
use project.Prelude.{
  ℕ, zero, suc, ◌+◌, ◌%◌, ◌^◌, ◌≤◌, ◌<◌, ◌≡◌, refl, ◌≢◌, none, some, [], ◌∷◌, ◌==◌, if◌then◌else◌,
  get_elem?, arith, inl, inr, ◌⊎◌,
}
use project.Prelude.Int.{pos}
use project.Aggregator.{
  Ptr, null, PageState, Nodes, write, Pool, Run, ok, fault, done, page_size, deref, walk, select,
  place_entry, take_entry, alloc_entry, alloc_page, insert_page, remove_page, set_next, set_prev,
}
use project.Aggregator.Links.{Cells, Links, IsPool}
use project.Aggregator.Entry.{walk-IsPool, Avoids-get}

-- The page at `q` is full for an entry of `size` bytes.
pub record IsFull (size : ℕ) (n : PageState) : Type 0 where
  pub full : page_size < n.current_offset + size
  pub offset : n.current_offset ≤ page_size
  pub small : size < 2 ^ 31
  pub mapped : n.p_page < 2 ^ 64

-- The cell before a cell that is not the first.
prev-Links :
    (i : ℕ) (h : Nodes) (prev p : Ptr) (cs : Cells) (q : Ptr) (n : PageState)
    → Links h prev p cs
    → get_elem? cs (suc i) ≡ some (q, n)
    → (m : PageState) × (h n.prev ≡ some m) × (n.prev ≢ null) × (n.prev ≢ q)
prev-Links i h prev p [] q n l e = absurd (cc)
prev-Links i h prev p ((r, s) ∷ []) q n l e = absurd (cc)
prev-Links zero h prev p ((r, s) ∷ (r', s') ∷ cs) q n l e =
    (s, ground arith, ground arith, ground arith)
prev-Links (suc i) h prev p ((r, s) ∷ c ∷ cs) q n l e = prev-Links i h r s.next (c ∷ cs) q n l.5 e

-- Past the first page `remove_page` unlinks the struct and frees it.
remove_page-inner :
    (s : Pool) (q : Ptr) (n m : PageState)
    → s.nodes q ≡ some n
    → q ≢ null
    → s.nodes n.prev ≡ some m
    → n.prev ≢ null
    → remove_page q s
      ≡ ok q (record s {
        nodes = write (write s.nodes n.prev (some (record m { next = n.next }))) q none;
      })
unfolding remove_page deref set_next
remove_page-inner s q n m hq nq hp np = ground arith

abbrev page_at : ℕ → ℕ → Ptr → PageState
page_at page offset head = record {
  p_page = page;
  current_offset = offset;
  prev = head;
  next = head;
}

alloc_page-head :
    (page fresh : ℕ) (s : Pool)
    → (s.page_pool ≡ null)
      ⊎ ((k : PageState) × (s.page_pool ≢ null) × (s.nodes s.page_pool ≡ some k))
    → fresh ≢ null
    → fresh ≢ s.page_pool
    → page % page_size ≡ 0
    → (s' : Pool) × (alloc_page (record { mapped = some page; fresh = fresh }) s ≡ ok done s')
      × (s'.page_pool ≡ fresh)
      × (s'.nodes fresh ≡ some (page_at page 0 s.page_pool))
unfolding alloc_page insert_page set_prev
alloc_page-head page fresh s (inl e) nf fh al = (
  record s {
    nodes = write s.nodes fresh (some (page_at page 0 s.page_pool));
    page_pool = fresh;
    free_page_count = s.free_page_count + 1;
  },
  ground arith,
  refl,
  ground arith,
)
alloc_page-head page fresh s (inr (k, nz, e)) nf fh al = (
  record s {
    nodes =
        write
          (write (write s.nodes fresh (some (page_at page 0 s.page_pool))) s.page_pool
            (some (record k { prev = fresh })))
          fresh (some (page_at page 0 s.page_pool));
    page_pool = fresh;
    free_page_count = s.free_page_count + 1;
  },
  ground arith,
  refl,
  ground arith,
)

take_entry-head :
    (old page size fresh head : ℕ) (s : Pool)
    → s.nodes fresh ≡ some (page_at page 0 head)
    → fresh ≢ null
    → size < 2 ^ 31
    → old < 2 ^ 64
    → take_entry old 0 size 0 fresh s
      ≡ ok old (record s { nodes = write s.nodes fresh (some (page_at page size head)) })
unfolding take_entry deref
take_entry-head old page size fresh head s e nf small mapped = ground arith

-- What the caller gets, and where the space is charged.
abbrev pub StaleEntry : ℕ → ℕ → Ptr → ℕ → Run ℕ → Type 0
StaleEntry old page fresh size r =
    (s' : Pool) × (head : Ptr) × (r ≡ ok old s')
    × (s'.page_pool ≡ fresh)
    × (s'.nodes fresh ≡ some (page_at page size head))

-- The three calls, once the page is removed.
place_entry-StaleEntry :
    (size page fresh : ℕ) (s s₁ : Pool) (q : Ptr) (n : PageState)
    → IsFull size n
    → s.nodes q ≡ some n
    → q ≢ null
    → remove_page q s ≡ ok q s₁
    → (s₁.page_pool ≡ null)
      ⊎ ((k : PageState) × (s₁.page_pool ≢ null) × (s₁.nodes s₁.page_pool ≡ some k))
    → fresh ≢ null
    → fresh ≢ s₁.page_pool
    → page % page_size ≡ 0
    → StaleEntry n.p_page page fresh size
        (place_entry size 0 (record { mapped = some page; fresh = fresh }) q s)
unfolding place_entry deref
place_entry-StaleEntry size page fresh s s₁ q n f hq nq removed head nf fh al =
    let (s₂, e₂, p₂, h₂) = alloc_page-head page fresh s₁ head nf fh al in
    let take = take_entry-head n.p_page page size fresh s₁.page_pool s₂ h₂ nf f.small f.mapped in
    (
      record s₂ { nodes = write s₂.nodes fresh (some (page_at page size s₁.page_pool)) },
      s₁.page_pool,
      ground (arith, removed, e₂, p₂, h₂, take, f.full, f.offset, f.small),
      p₂,
      ground arith,
    )

prev-IsPool :
    (i : ℕ) (h : Nodes) (p : Ptr) (cs : Cells) (q : Ptr) (n : PageState)
    → IsPool h p cs
    → get_elem? cs (suc i) ≡ some (q, n)
    → (m : PageState) × (h n.prev ≡ some m) × (n.prev ≢ null) × (n.prev ≢ q)
prev-IsPool i h p [] q n l e = absurd (cc)
prev-IsPool i h p ((r, s) ∷ cs) q n l e =
    prev-Links i h s.prev p ((r, s) ∷ cs) q n (l.0, l.1, l.2, refl, l.4, l.5) e

head-IsPool :
    (i : ℕ) (h : Nodes) (p : Ptr) (cs : Cells) (q : Ptr) (n : PageState)
    → IsPool h p cs
    → get_elem? cs (suc i) ≡ some (q, n)
    → (k : PageState) × (h p ≡ some k) × (p ≢ null) × (p ≢ q)
head-IsPool i h p [] q n l e = absurd (cc)
head-IsPool i h p ((r, s) ∷ cs) q n l e =
    (s, rw l.0 l.2, rw l.0 l.1, rw l.0 (Avoids-get r cs i q n l.4 e))

module _ (size page fresh : ℕ) (s : Pool) (q : Ptr) (n : PageState) (full : IsFull size n)
    (nf : fresh ≢ null) (aligned : page % page_size ≡ 0) where
  inner-StaleEntry :
      (m k : PageState)
      → s.nodes q ≡ some n
      → q ≢ null
      → s.nodes n.prev ≡ some m
      → n.prev ≢ null
      → n.prev ≢ q
      → s.nodes s.page_pool ≡ some k
      → s.page_pool ≢ null
      → s.page_pool ≢ q
      → (s.nodes fresh ≡ none) ⊎ (fresh ≡ q)
      → StaleEntry n.p_page page fresh size
          (place_entry size 0 (record { mapped = some page; fresh = fresh }) q s)
  inner-StaleEntry m k hq nq hp np pq hk nh hq' unused =
      let next : PageState = record m { next = n.next } in
      let h : Nodes = write s.nodes n.prev (some next) in
      let s₁ : Pool = record s { nodes = write h q none } in
      let ne : fresh ≢ s.page_pool = ground arith in
      place_entry-StaleEntry size page fresh s s₁ q n full hq nq
        (remove_page-inner s q n m hq nq hp np)
        (inr (if s.page_pool == n.prev then next else k, nh, ground arith)) nf ne aligned

  -- A page other than the first that is full for the entry: the address returned is the first
  -- byte of the removed page, while the space is charged to the page newly mapped.
  pub alloc_entry-stale :
      (i : ℕ) (cs : Cells)
      → IsPool s.nodes s.page_pool cs
      → get_elem? cs (suc i) ≡ some (q, n)
      → suc i < s.free_page_count
      → (s.nodes fresh ≡ none) ⊎ (fresh ≡ q)
      → StaleEntry n.p_page page fresh size
          (alloc_entry size (pos (suc i)) (record { mapped = some page; fresh = fresh }) s)
  unfolding alloc_entry select
  alloc_entry-stale i cs pool at counted unused =
      let (walks, hq, nq) = walk-IsPool (suc i) s.nodes s.page_pool cs q n pool at in
      let (m, hp, np, pq) = prev-IsPool i s.nodes s.page_pool cs q n pool at in
      let (k, hk, nk, hq') = head-IsPool i s.nodes s.page_pool cs q n pool at in
      let (s', head, e, p, c) = inner-StaleEntry m k hq nq hp np pq hk nk hq' unused in
      (s', head, ground (arith, walks, e), p, c)

  -- The first page of two or more is full: the old head's struct is freed and stays the head, and
  -- the write to it is a fault, unless malloc hands out that very struct again.
  pub alloc_entry-fault :
      (c : Ptr × PageState) (cs : Cells)
      → IsPool s.nodes s.page_pool ((q, n) ∷ c ∷ cs)
      → 0 < s.free_page_count
      → fresh ≢ q
      → alloc_entry size (pos 0) (record { mapped = some page; fresh = fresh }) s ≡ fault
  unfolding alloc_entry select walk place_entry deref remove_page set_next alloc_page insert_page
      set_prev
  alloc_entry-fault (p, m) cs pool counted ne = ground (arith, full.full, full.offset, full.small)

  -- If it does, the new head is its own successor, and the other pages are out of reach.
  pub alloc_entry-loop :
      (c : Ptr × PageState) (cs : Cells)
      → IsPool s.nodes s.page_pool ((q, n) ∷ c ∷ cs)
      → 0 < s.free_page_count
      → fresh ≡ q
      → (s' : Pool) × (alloc_entry size (pos 0) (record { mapped = some page; fresh = fresh }) s
          ≡ ok n.p_page s')
        × (s'.page_pool ≡ q)
        × (s'.nodes q ≡ some (page_at page size q))
  unfolding alloc_entry select walk place_entry deref remove_page set_next alloc_page insert_page
      set_prev take_entry
  alloc_entry-loop (p, m) cs pool counted same =
      let node : PageState = page_at page 0 q in
      let h : Nodes = write (write s.nodes p (some (record m { next = p }))) q none in
      let h₁ : Nodes = write (write h q (some node)) q (some (record node { prev = q })) in
      (
        record s {
          nodes = write (write h₁ q (some node)) q (some (page_at page size q));
          free_page_count = s.free_page_count + 1;
        },
        ground (arith, full.full, full.offset, full.small, full.mapped),
        pool.0,
        ground arith,
      )
