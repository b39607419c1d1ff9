-- ===== src/Ziplist/Back.antt =====
-- ziplistIndex from the tail on, for indices below 0.
use mathlib.Core.List.{append_assoc}
use project.Prelude.{
  ℕ, zero, suc, ◌-◌, ◌^◌, ◌≤◌, ◌<◌, ◌≡◌, refl, ◌∙◌, ap, subst, ◌⊎◌, inl, inr, false, some, List, [],
  ◌∷◌, ◌++◌, length, length-append, take, ◌==◌, ltb, arith,
}
use project.Prelude.Int.{negsuc}
use project.Prelude.Options.{◌>>=◌}
use project.Rdb.{Bytes}
use project.Ziplist.{zip_end}
use project.Ziplist.Blob.{tail_offset}
use project.Ziplist.Visit.{backward, reached, index}
use project.Ziplist.Layout.{Node, node_size}
use project.Ziplist.Nodes
use project.Ziplist.Nodes.{IsZiplist, entries, last_size, header}
use project.Ziplist.Places.{offset, node_some}
use project.Ziplist.Walk.{at_node, offset-snoc, take_all}

-- A list is empty or has a last element.
pub last_view :
    (ns : List Node) → (ns ≡ []) ⊎ ((front : List Node) × (m : Node) × (ns ≡ front ++ m ∷ []))
last_view [] = inl refl
last_view (n ∷ ns) = elim (last_view ns) [
  | inl e ↦ inr ([], n, ap (λ x. n ∷ x) e)
  | inr (front, m, e) ↦ inr (n ∷ front, m, ap (λ x. n ∷ x) e)
]

pub take-append_le : (k : ℕ) (xs ys : List Node) → k ≤ length xs → take k (xs ++ ys) ≡ take k xs
take-append_le zero xs ys h = refl
take-append_le (suc k) [] ys h = absurd (omega arith)
take-append_le (suc k) (x ∷ xs) ys h = ap (λ z. x ∷ z) (take-append_le k xs ys (omega arith))

module _ {zl : Bytes} (bound : length zl < 2 ^ 32 - 32) where
  -- One round of the loop of ziplistIndex, from the node behind `m`.
  step_back :
      (i : ℕ) (front : List Node) (m n : Node) (ms : List Node)
      → IsZiplist zl (front ++ m ∷ n ∷ ms)
      → backward zl (offset front) (last_size 0 front) i
        ≡ some (offset (take (length front - i) front), i - length front)
      → backward zl (offset (front ++ m ∷ [])) (last_size 0 (front ++ m ∷ [])) (suc i)
        ≡ some (
          offset (take (length (front ++ m ∷ []) - suc i) (front ++ m ∷ [])),
          suc i - length (front ++ m ∷ []),
        )
  unfolding backward
  step_back i front m n ms z ih =
      let at = at_node bound front m (n ∷ ms) z in
      let size = node_size (last_size 0 front) m in
      let last : last_size 0 (front ++ m ∷ []) ≡ size =
        Nodes.last_size-append 0 front (m ∷ []) ∙ unfold last_size in refl in
      let here = offset-snoc front m in
      let some_bytes : (size == 0) ≡ false = ground (arith, node_some (last_size 0 front) m) in
      let fits : ltb (offset (front ++ m ∷ [])) size ≡ false = ground arith in
      let to : offset (front ++ m ∷ []) - size ≡ offset front = omega arith in
      let many = length-append front (m ∷ []) in
      let fewer : length (front ++ m ∷ []) - suc i ≡ length front - i = omega arith in
      let left : suc i - length (front ++ m ∷ []) ≡ i - length front = omega arith in
      rw
        (
          last,
          some_bytes,
          fits,
          to,
          at.dropped,
          at.reads.parsed,
          ◌>>=◌,
          at.reads.prevrawlen,
          fewer,
          left,
          take-append_le (length front - i) front (m ∷ []) (omega arith),
        )
        ih

  -- The loop of ziplistIndex from the node behind `ns` to the front.
  backward-offset :
      (i : ℕ) (ns : List Node) (n : Node) (ms : List Node)
      → IsZiplist zl (ns ++ n ∷ ms)
      → backward zl (offset ns) (last_size 0 ns) i
        ≡ some (offset (take (length ns - i) ns), i - length ns)
  backward-offset zero ns n ms z =
      let all : take (length ns - 0) ns ≡ ns = take_all (length ns - 0) ns (omega arith) in
      unfold backward in rw all (ap (λ k. some (offset ns, k)) (omega arith))
  backward-offset (suc i) ns n ms z = elim (last_view ns) [
    | inl e ↦
        let none_left : take (0 - suc i) [] ≡ [] = take_all (0 - suc i) [] (omega arith) in
        rw e
          (unfold backward last_size in rw none_left (ap (λ k. some (offset [], k)) (omega arith)))
    | inr (front, m, e) ↦
        let z' : IsZiplist zl (front ++ m ∷ n ∷ ms) =
          subst (IsZiplist zl) (ap (λ x. x ++ n ∷ ms) e ∙ append_assoc front (m ∷ []) (n ∷ ms)) z in
        rw e (step_back i front m n ms z' (backward-offset i front m (n ∷ ms) z'))
  ]

  -- The last node stands at the tail offset.
  tail_at :
      (ns : List Node) (n : Node) (z : IsZiplist zl (ns ++ n ∷ []))
      → tail_offset zl ≡ some (offset ns)
  tail_at ns n z =
      let last : last_size 0 (ns ++ n ∷ []) ≡ node_size (last_size 0 ns) n =
        Nodes.last_size-append 0 ns (n ∷ []) ∙ unfold last_size in refl in
      let here = offset-snoc ns n in
      ap tail_offset z.layout
      ∙ Nodes.tail_offset-header z.total z.tail z.count (entries 0 (ns ++ n ∷ []) ++ zip_end ∷ [])
          (omega (arith, z.at_last, z.sized, z.small))
      ∙ ap some (omega (arith, z.at_last))

  -- The node that ziplistIndex reaches with -1 - i, where there is one.
  pub index-back :
      (ns : List Node) (n : Node) (i : ℕ)
      → IsZiplist zl (ns ++ n ∷ [])
      → index zl (negsuc i) ≡ reached zl (offset (take (length ns - i) ns), i - length ns)
  unfolding index
  index-back ns n i z =
      let at = at_node bound ns n [] z in
      rw
        (
          tail_at ns n z,
          ◌>>=◌,
          at.first,
          ◌>>=◌,
          at.inner,
          at.dropped,
          at.reads.parsed,
          ◌>>=◌,
          at.reads.prevrawlen,
          backward-offset i ns n [] z,
          ◌>>=◌,
        )
        refl
