-- ===== src/Aggregator/Owned.antt =====
-- The bytes that `alloc_entry` of memory_aggregator.c has handed out, and the free parts of pages.
use project.Prelude.{
  ℕ, zero, suc, ◌+◌, ◌≤◌, ◌≡◌, some, [], ◌∷◌, get_elem?, set, arith, inl, ◌⊎◌, subst,
}
use project.Prelude.Int.{pos}
use project.Aggregator.{Ptr, PageState, Pool, ok, Answer, page_size, alloc_entry}
use project.Aggregator.Links.{Cells, IsPool}
use project.Aggregator.Entry.{HasRoom, advance, alloc_entry-room}

-- The bytes from `b` on, `t` of them, lie in no free part of a page.
abbrev pub IsOwned : ℕ → ℕ → Cells → Type 0
IsOwned b t [] = Unit {0}
IsOwned b t ((_, n) ∷ cs) =
    ((b + t ≤ n.p_page + n.current_offset) ⊎ (n.p_page + page_size ≤ b)) × IsOwned b t cs

abbrev pub ApartFrom : ℕ → Cells → Type 0
ApartFrom page [] = Unit {0}
ApartFrom page ((_, n) ∷ cs) =
    ((page + page_size ≤ n.p_page) ⊎ (n.p_page + page_size ≤ page)) × ApartFrom page cs

-- No two pages of the pool overlap.
abbrev pub ArePagesApart : Cells → Type 0
ArePagesApart [] = Unit {0}
ArePagesApart ((_, n) ∷ cs) = ApartFrom n.p_page cs × ArePagesApart cs

IsOwned-get :
    (b t i : ℕ) (cs : Cells) (q : Ptr) (n : PageState)
    → get_elem? cs i ≡ some (q, n)
    → IsOwned b t cs
    → (b + t ≤ n.p_page + n.current_offset) ⊎ (n.p_page + page_size ≤ b)
IsOwned-get b t i [] q n e o = absurd (cc)
IsOwned-get b t zero ((r, m) ∷ cs) q n e o = ground arith
IsOwned-get b t (suc i) ((r, m) ∷ cs) q n e o = IsOwned-get b t i cs q n e o.1

IsOwned-set :
    (b t size i : ℕ) (cs : Cells) (q : Ptr) (n : PageState)
    → get_elem? cs i ≡ some (q, n)
    → IsOwned b t cs
    → IsOwned b t (set cs i (q, record n { current_offset = n.current_offset + size }))
IsOwned-set b t size i [] q n e o = tt
IsOwned-set b t size zero ((r, m) ∷ cs) q n e o = (ground arith, o.1)
IsOwned-set b t size (suc i) ((r, m) ∷ cs) q n e o = (o.0, IsOwned-set b t size i cs q n e o.1)

ApartFrom-IsOwned :
    (page offset size : ℕ) (cs : Cells)
    → offset + size ≤ page_size
    → ApartFrom page cs
    → IsOwned (page + offset) size cs
ApartFrom-IsOwned page offset size [] fits a = tt
ApartFrom-IsOwned page offset size ((q, n) ∷ cs) fits a =
    (ground arith, ApartFrom-IsOwned page offset size cs fits a.1)

ApartFrom-get :
    (page i : ℕ) (cs : Cells) (q : Ptr) (n : PageState)
    → get_elem? cs i ≡ some (q, n)
    → ApartFrom page cs
    → (page + page_size ≤ n.p_page) ⊎ (n.p_page + page_size ≤ page)
ApartFrom-get page i [] q n e a = absurd (cc)
ApartFrom-get page zero ((r, m) ∷ cs) q n e a = ground arith
ApartFrom-get page (suc i) ((r, m) ∷ cs) q n e a = ApartFrom-get page i cs q n e a.1

new-IsOwned :
    (size i : ℕ) (cs : Cells) (q : Ptr) (n : PageState)
    → get_elem? cs i ≡ some (q, n)
    → n.current_offset + size ≤ page_size
    → ArePagesApart cs
    → IsOwned
        (n.p_page + n.current_offset)
        size
        (set cs i (q, record n { current_offset = n.current_offset + size }))
new-IsOwned size i [] q n e fits a = tt
new-IsOwned size zero ((r, m) ∷ cs) q n e fits a =
    let same : n ≡ m = ground arith in
    (inl (omega arith), ApartFrom-IsOwned n.p_page n.current_offset size cs fits (rw same a.0))
new-IsOwned size (suc i) ((r, m) ∷ cs) q n e fits a =
    (ground (arith, ApartFrom-get m.p_page i cs q n e a.0), new-IsOwned size i cs q n e fits a.1)

ApartFrom-set :
    (page size i : ℕ) (cs : Cells) (q : Ptr) (n : PageState)
    → get_elem? cs i ≡ some (q, n)
    → ApartFrom page cs
    → ApartFrom page (set cs i (q, record n { current_offset = n.current_offset + size }))
ApartFrom-set page size i [] q n e a = tt
ApartFrom-set page size zero ((r, m) ∷ cs) q n e a = (ground arith, a.1)
ApartFrom-set page size (suc i) ((r, m) ∷ cs) q n e a =
    (a.0, ApartFrom-set page size i cs q n e a.1)

ArePagesApart-set :
    (size i : ℕ) (cs : Cells) (q : Ptr) (n : PageState)
    → get_elem? cs i ≡ some (q, n)
    → ArePagesApart cs
    → ArePagesApart (set cs i (q, record n { current_offset = n.current_offset + size }))
ArePagesApart-set size i [] q n e a = tt
ArePagesApart-set size zero ((r, m) ∷ cs) q n e a =
    let same : n ≡ m = ground arith in (rw same a.0, a.1)
ArePagesApart-set size (suc i) ((r, m) ∷ cs) q n e a =
    (ApartFrom-set m.p_page size i cs q n e a.0, ArePagesApart-set size i cs q n e a.1)

-- The pool has pages that do not overlap, and the `t` bytes from `b` on and the `size` bytes from
-- `r` on lie in no free part of them.
pub record BothOwned (b t r size : ℕ) (s : Pool) : Type 0 where
  pub cells : Cells
  pub pool : IsPool s.nodes s.page_pool cells
  pub apart : ArePagesApart cells
  pub old_owned : IsOwned b t cells
  pub new_owned : IsOwned r size cells

-- Where the selected page has room and the pages do not overlap, the entry returned overlaps no
-- bytes handed out before, and in the pool that the call leaves, whose pages do not overlap either,
-- both these bytes and the new entry lie in no free part of a page.
pub alloc_entry-apart :
    (size i : ℕ) (a : Answer) (s s' : Pool) (cs : Cells) (q : Ptr) (n : PageState) (b t r : ℕ)
    → HasRoom size i s cs q n
    → ArePagesApart cs
    → IsOwned b t cs
    → alloc_entry size (pos i) a s ≡ ok r s'
    → ((b + t ≤ r) ⊎ (r + size ≤ b)) × BothOwned b t r size s'
alloc_entry-apart size i a s s' cs q n b t r has apart owned e =
    let (run, shape) = alloc_entry-room size i a s cs q n has in
    let got : r ≡ n.p_page + n.current_offset = ground (arith, run) in
    let left : advance s q n size ≡ s' = ground (arith, run) in
    let here : BothOwned b t (n.p_page + n.current_offset) size (advance s q n size) = record {
      cells = set cs i (q, record n { current_offset = n.current_offset + size });
      pool = shape;
      apart = ArePagesApart-set size i cs q n has.at apart;
      old_owned = IsOwned-set b t size i cs q n has.at owned;
      new_owned = new-IsOwned size i cs q n has.at has.room apart;
    } in
    (
      ground (arith, IsOwned-get b t i cs q n has.at owned, has.room),
      subst (BothOwned b t r size) left (rw got here),
    )
