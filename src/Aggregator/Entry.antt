-- ===== src/Aggregator/Entry.antt =====
-- `alloc_entry` of memory_aggregator.c where the selected page has room.
use project.Prelude.{
  ℕ, zero, suc, ◌+◌, ◌%◌, ◌^◌, ◌≤◌, ◌<◌, ◌≡◌, refl, ◌≢◌, some, [], ◌∷◌, get_elem?, set, arith,
}
use project.Prelude.Int.{pos}
use project.Aggregator.{
  Ptr, null, PageState, Nodes, write, Pool, ok, Answer, page_size, deref, walk, select, place_entry,
  take_entry, alloc_entry, alloc_entry_random,
}
use project.Aggregator.Links.{Cells, Avoids, Links, IsPool, Links-write}

-- The loop stops at the page whose index was asked for.
pub walk-Links :
    (i : ℕ) (h : Nodes) (prev p : Ptr) (cs : Cells) (q : Ptr) (n : PageState)
    → Links h prev p cs
    → get_elem? cs i ≡ some (q, n)
    → (walk i h p ≡ some q) × (h q ≡ some n) × (q ≢ null)
unfolding walk deref
walk-Links i h prev p [] q n l e = absurd (cc)
walk-Links zero h prev p ((r, s) ∷ cs) q n l e = ground arith
walk-Links (suc i) h prev p ((r, s) ∷ []) q n l e = absurd (cc)
walk-Links (suc i) h prev p ((r, s) ∷ c ∷ cs) q n l e =
    ground (arith, walk-Links i h r s.next (c ∷ cs) q n l.5 e)

pub Avoids-get :
    (r : Ptr) (cs : Cells) (i : ℕ) (q : Ptr) (n : PageState)
    → Avoids r cs
    → get_elem? cs i ≡ some (q, n)
    → r ≢ q
Avoids-get r [] i q n a e = absurd (cc)
Avoids-get r ((p, s) ∷ cs) zero q n a e = ground arith
Avoids-get r ((p, s) ∷ cs) (suc i) q n a e = Avoids-get r cs i q n a.1 e

Avoids-set :
    (r : Ptr) (cs : Cells) (i : ℕ) (q : Ptr) (n m : PageState)
    → Avoids r cs
    → get_elem? cs i ≡ some (q, n)
    → Avoids r (set cs i (q, m))
Avoids-set r [] i q n m a e = tt
Avoids-set r ((p, s) ∷ cs) zero q n m a e = (ground arith, a.1)
Avoids-set r ((p, s) ∷ cs) (suc i) q n m a e = (a.0, Avoids-set r cs i q n m a.1 e)

-- An offset that moves leaves the links as they are.
Links-set :
    (i : ℕ) (h : Nodes) (prev p : Ptr) (cs : Cells) (q : Ptr) (n : PageState) (offset : ℕ)
    → Links h prev p cs
    → get_elem? cs i ≡ some (q, n)
    → Links
        (write h q (some (record n { current_offset = offset })))
        prev
        p
        (set cs i (q, record n { current_offset = offset }))
Links-set i h prev p [] q n offset l e = l
Links-set zero h prev p ((r, s) ∷ cs) q n offset l e =
    let e' : q ≡ r = ground arith in
    let same : n ≡ s = ground arith in
    let out : Avoids q cs = rw e' l.4 in
    let rest : Links h q n.next cs = rw (e', same) l.5 in
    (
      ground arith,
      ground arith,
      ground arith,
      ground arith,
      out,
      Links-write h q n.next q _ cs out rest,
    )
Links-set (suc i) h prev p ((r, s) ∷ cs) q n offset l e =
    let ne : r ≢ q = Avoids-get r cs i q n l.4 e in
    (
      l.0,
      l.1,
      ground arith,
      l.3,
      Avoids-set r cs i q n _ l.4 e,
      Links-set i h r s.next cs q n offset l.5 e,
    )

take_entry_lem :
    (page offset size : ℕ) (q : Ptr) (n : PageState) (s : Pool)
    → q ≢ null
    → s.nodes q ≡ some n
    → offset + size ≤ page_size
    → page + page_size < 2 ^ 64
    → take_entry page offset size 0 q s
      ≡ ok (page + offset) (record s {
        nodes = write s.nodes q (some (record n { current_offset = offset + size }));
      })
unfolding take_entry deref
take_entry_lem page offset size q n s ne e fits room = ground arith

-- The same for a pool, whose first page has another `prev`.
IsPool-Links :
    (h : Nodes) (p : Ptr) (q : Ptr) (n : PageState) (cs : Cells)
    → IsPool h p ((q, n) ∷ cs)
    → Links h n.prev p ((q, n) ∷ cs)
IsPool-Links h p q n cs l = (l.0, l.1, l.2, refl, l.4, l.5)

pub walk-IsPool :
    (i : ℕ) (h : Nodes) (p : Ptr) (cs : Cells) (q : Ptr) (n : PageState)
    → IsPool h p cs
    → get_elem? cs i ≡ some (q, n)
    → (walk i h p ≡ some q) × (h q ≡ some n) × (q ≢ null)
walk-IsPool i h p [] q n l e = absurd (cc)
walk-IsPool i h p ((r, s) ∷ cs) q n l e =
    walk-Links i h s.prev p ((r, s) ∷ cs) q n (IsPool-Links h p r s cs l) e

pub IsPool-set :
    (i : ℕ) (h : Nodes) (p : Ptr) (cs : Cells) (q : Ptr) (n : PageState) (offset : ℕ)
    → IsPool h p cs
    → get_elem? cs i ≡ some (q, n)
    → IsPool
        (write h q (some (record n { current_offset = offset })))
        p
        (set cs i (q, record n { current_offset = offset }))
IsPool-set i h p [] q n offset l e = l
IsPool-set zero h p ((r, s) ∷ cs) q n offset l e =
    let m = Links-set zero h s.prev p ((r, s) ∷ cs) q n offset (IsPool-Links h p r s cs l) e in
    let same : n ≡ s = ground arith in (m.0, m.1, m.2, rw same l.3, m.4, m.5)
IsPool-set (suc i) h p ((r, s) ∷ cs) q n offset l e =
    let m = Links-set (suc i) h s.prev p ((r, s) ∷ cs) q n offset (IsPool-Links h p r s cs l) e in
    (m.0, m.1, m.2, l.3, m.4, m.5)

-- Page `i` of the pool, its struct at `q` holding `n`, has room for `size` bytes.
pub record HasRoom (size i : ℕ) (s : Pool) (cs : Cells) (q : Ptr) (n : PageState) : Type 0 where
  pub pool : IsPool s.nodes s.page_pool cs
  pub counted : i < s.free_page_count
  pub at : get_elem? cs i ≡ some (q, n)
  pub room : n.current_offset + size ≤ page_size
  pub mapped : n.p_page + page_size < 2 ^ 64

-- The pool after the offset of the page at `q` moves past an entry.
abbrev pub advance : Pool → Ptr → PageState → ℕ → Pool
advance s q n size = record s {
  nodes = write s.nodes q (some (record n { current_offset = n.current_offset + size }));
}

-- Where the selected page has room, `alloc_entry` returns the first free byte of that page, moves
-- its offset by `size`, changes no other struct, and the pool keeps its shape.
pub alloc_entry-room :
    (size i : ℕ) (a : Answer) (s : Pool) (cs : Cells) (q : Ptr) (n : PageState)
    → HasRoom size i s cs q n
    → (alloc_entry size (pos i) a s ≡ ok (n.p_page + n.current_offset) (advance s q n size))
      × IsPool
          (advance s q n size).nodes
          s.page_pool
          (set cs i (q, record n { current_offset = n.current_offset + size }))
unfolding alloc_entry select place_entry deref
alloc_entry-room size i a s cs q n r =
    let w = walk-IsPool i s.nodes s.page_pool cs q n r.pool r.at in
    let take = take_entry_lem n.p_page n.current_offset size q n s w.2 w.1 r.room r.mapped in
    (
      ground (arith, w.0, w.1, w.2, take, r.counted, r.room),
      IsPool-set i s.nodes s.page_pool cs q n (n.current_offset + size) r.pool r.at,
    )

-- `alloc_entry_random` with any value of rand(): where page `rand % page_pool_size` has room, the
-- entry goes there, as `alloc_entry` puts it.
pub alloc_entry_random-room :
    (rand size : ℕ) (a : Answer) (s : Pool) (cs : Cells) (q : Ptr) (n : PageState)
    → s.page_pool_size ≢ 0
    → HasRoom size (rand % s.page_pool_size) s cs q n
    → alloc_entry_random rand size a s ≡ ok (n.p_page + n.current_offset) (advance s q n size)
unfolding alloc_entry_random alloc_entry
alloc_entry_random-room rand size a s cs q n ne has =
    ground (arith, (alloc_entry-room size (rand % s.page_pool_size) a s cs q n has).0)
