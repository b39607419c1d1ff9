-- ===== src/Ziplist/Walk.antt =====
-- ziplistIndex, ziplistNext, ziplistPrev, ziplistGet and ziplistLen on a ziplist of given nodes.
use mathlib.Core.List.{append_assoc, append-nil}
use native.Mathlib.Nat.{mod-eq_of_lt}
use project.Prelude.{
  ℕ, zero, suc, ◌+◌, ◌-◌, ◌^◌, ◌≤◌, ◌<◌, ◌≡◌, refl, ◌∙◌, ap, sym, subst, false, some, none, List,
  [], ◌∷◌, ◌++◌, length, length-append, take, drop, ◌==◌, ◌||◌, ltb, arith,
}
use project.Prelude.Int.{pos}
use project.Prelude.Options.{◌>>=◌}
use project.Rdb.{Bytes}
use project.Ziplist.{raw_entry_length}
use project.Ziplist.Blob.{header_size}
use project.Ziplist.Visit.{get, forward, reached, index, next, prev, count_loop}
use project.Ziplist.Layout.{Node, node_size, meaning, node_first}
use project.Ziplist.Memory.{take_at}
use project.Ziplist.Nodes
use project.Ziplist.Nodes.{IsZiplist, entries, last_size, header}
use project.Ziplist.Places.{offset, Seen, seen, at_end, node_some, length-ziplist}

-- The offset behind one more node.
pub offset-snoc :
    (ns : List Node) (n : Node) → offset (ns ++ n ∷ []) ≡ offset ns + node_size (last_size 0 ns) n
offset-snoc ns n = omega (
  arith,
  ap length (Nodes.entries-append 0 ns (n ∷ [])),
  ap length (Nodes.entries-one (last_size 0 ns) n),
  length-append (entries 0 ns) (entries (last_size 0 ns) (n ∷ [])),
  Nodes.length-one (last_size 0 ns) n,
)

abbrev pub regroup :
    {zl : Bytes} (ns : List Node) (n : Node) (ms : List Node)
    → IsZiplist zl (ns ++ n ∷ ms)
    → IsZiplist zl ((ns ++ n ∷ []) ++ ms)
regroup {zl} ns n ms z = subst (IsZiplist zl) (sym (append_assoc ns (n ∷ []) ms)) z

pub take_all : (i : ℕ) (ns : List Node) → length ns ≤ i → take i ns ≡ ns
take_all zero [] h = refl
take_all zero (n ∷ ns) h = absurd (omega arith)
take_all (suc i) [] h = refl
take_all (suc i) (n ∷ ns) h = ap (λ x. n ∷ x) (take_all i ns (omega arith))

module _ {zl : Bytes} (bound : length zl < 2 ^ 32 - 32) where
  pub at_node :
      (ns : List Node) (n : Node) (ms : List Node) → IsZiplist zl (ns ++ n ∷ ms) → Seen zl ns n
  at_node ns n ms z = seen ns n ms z (omega (arith, length-ziplist z))

  pub raw_at :
      (ns : List Node) (n : Node) (ms : List Node)
      → IsZiplist zl (ns ++ n ∷ ms)
      → raw_entry_length (drop (offset ns) zl) ≡ some (node_size (last_size 0 ns) n)
  raw_at ns n ms z =
      let at = at_node ns n ms z in
      rw at.dropped (at.reads.raw ∙ ap some (mod-eq_of_lt (omega (arith, at.within))))

  -- The loop of ziplistIndex from the node behind `ns` on.
  forward-offset :
      (ns ms : List Node) (i : ℕ)
      → IsZiplist zl (ns ++ ms)
      → forward zl (offset ns) i ≡ some (offset (ns ++ take i ms), i - length ms)
  unfolding forward
  forward-offset ns ms zero z = rw (append-nil ns) (ap (λ k. some (offset ns, k)) (omega arith))
  forward-offset ns [] (suc i) z =
      let end = at_end (subst (IsZiplist zl) (append-nil ns) z) in
      rw (end, ◌>>=◌, append-nil ns) (ap (λ k. some (offset ns, k)) (omega arith))
  forward-offset ns (n ∷ ms) (suc i) z =
      let at = at_node ns n ms z in
      let ih = forward-offset (ns ++ n ∷ []) ms i (regroup ns n ms z) in
      rw (at.first, ◌>>=◌, at.inner, raw_at ns n ms z, ◌>>=◌, sym (offset-snoc ns n))
        (ih
          ∙ ap (λ x. some (offset x, i - length ms)) (append_assoc ns (n ∷ []) (take i ms))
          ∙ ap (λ k. some (offset (ns ++ n ∷ take i ms), k)) (omega arith))

  -- ziplistGet at a node.
  pub get-node :
      (ns : List Node) (n : Node) (ms : List Node)
      → IsZiplist zl (ns ++ n ∷ ms)
      → get (drop (offset ns) zl) ≡ some (some (meaning n.text))
  unfolding get
  get-node ns n ms z =
      let at = at_node ns n ms z in
      let (b, x, e, inner) = node_first (last_size 0 ns) n at.rest in
      ap get (at.dropped ∙ e)
      ∙ rw (inner, sym e, at.reads.parsed, ◌>>=◌, at.reads.value, ◌>>=◌) refl

  -- An index in range.
  pub index-node :
      (ns : List Node) (n : Node) (ms : List Node)
      → IsZiplist zl (ns ++ n ∷ ms)
      → index zl (pos (length ns)) ≡ some (some (offset ns))
  unfolding index reached entries
  index-node ns n ms z =
      let at = at_node ns n ms z in
      let run = forward-offset [] (ns ++ n ∷ ms) (length ns) z in
      let all : take (length ns) (ns ++ n ∷ ms) ≡ ns = take_at ns (n ∷ ms) (length ns) refl in
      let left : length ns - length (ns ++ n ∷ ms) ≡ 0 = omega (arith, length-append ns (n ∷ ms)) in
      rw (run, ◌>>=◌, all, left, at.first, ◌>>=◌, at.inner) refl

  -- One behind the end.
  pub index-behind :
      (ns : List Node) (i : ℕ) → IsZiplist zl ns → length ns ≤ i → index zl (pos i) ≡ some none
  unfolding index reached entries
  index-behind ns i z high =
      let run = forward-offset [] ns i z in
      let all : take i ns ≡ ns = take_all i ns high in rw (run, ◌>>=◌, all, at_end z, ◌>>=◌) refl

  -- ziplistNext and ziplistPrev go to the neighbours.
  pub next-node :
      (ns : List Node) (n m : Node) (ms : List Node)
      → IsZiplist zl (ns ++ n ∷ m ∷ ms)
      → next zl (offset ns) ≡ some (some (offset (ns ++ n ∷ [])))
  unfolding next reached
  next-node ns n m ms z =
      let at = at_node ns n (m ∷ ms) z in
      let at' = at_node (ns ++ n ∷ []) m ms (regroup ns n (m ∷ ms) z) in
      rw
        (
          at.first,
          ◌>>=◌,
          at.inner,
          raw_at ns n (m ∷ ms) z,
          ◌>>=◌,
          sym (offset-snoc ns n),
          at'.first,
          ◌>>=◌,
          at'.inner,
        )
        refl

  pub prev-node :
      (ns : List Node) (n m : Node) (ms : List Node)
      → IsZiplist zl (ns ++ n ∷ m ∷ ms)
      → prev zl (offset (ns ++ n ∷ [])) ≡ some (some (offset ns))
  unfolding prev
  prev-node ns n m ms z =
      let at = at_node (ns ++ n ∷ []) m ms (regroup ns n (m ∷ ms) z) in
      let size = node_size (last_size 0 ns) n in
      let here = offset-snoc ns n in
      let some_bytes = node_some (last_size 0 ns) n in
      let back : last_size 0 (ns ++ n ∷ []) ≡ size =
        Nodes.last_size-append 0 ns (n ∷ []) ∙ unfold last_size in refl in
      let far : (offset (ns ++ n ∷ []) == header_size) ≡ false = ground arith in
      let fits : (size == 0 || ltb (offset (ns ++ n ∷ [])) size) ≡ false = ground arith in
      rw
        (
          at.first, ◌>>=◌, at.inner, far, at.dropped, at.reads.parsed, ◌>>=◌, at.reads.prevrawlen,
          back, fits,
        )
        (ap (λ k. some (some k)) (omega arith))

  -- The loop of ziplistLen.
  pub count_loop-length :
      (fuel : ℕ) (ns ms : List Node) (k : ℕ)
      → IsZiplist zl (ns ++ ms)
      → length ms < fuel
      → count_loop fuel zl (offset ns) k ≡ some (k + length ms)
  unfolding count_loop
  count_loop-length zero ns ms k z enough = absurd (omega arith)
  count_loop-length (suc fuel) ns [] k z enough =
      rw (at_end (subst (IsZiplist zl) (append-nil ns) z), ◌>>=◌) (ap some (omega arith))
  count_loop-length (suc fuel) ns (n ∷ ms) k z enough =
      let at = at_node ns n ms z in
      let ih = count_loop-length fuel (ns ++ n ∷ []) ms (k + 1) (regroup ns n ms z) (omega arith) in
      rw (at.first, ◌>>=◌, at.inner, raw_at ns n ms z, ◌>>=◌, sym (offset-snoc ns n), ih)
        (ap some (omega arith))
