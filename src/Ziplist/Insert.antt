-- ===== src/Ziplist/Insert.antt =====
-- ziplistInsert in front of an entry whose length field keeps its size: the ziplist that it gives.
use mathlib.Core.List.{append_assoc}
use native.Mathlib.Nat.{mod-eq_of_lt}
use project.Prelude.{
  ℕ, zero, suc, ◌+◌, ◌-◌, ◌^◌, ◌<◌, ◌≡◌, refl, ◌∙◌, ap, sym, subst, ◌⊎◌, some, List, [], ◌∷◌, ◌++◌,
  length, length-append, get_elem?, arith,
}
use project.Prelude.Int.{pos}
use project.Prelude.Options.{◌>>=◌}
use project.Rdb.{Bytes}
use project.Ziplist.{zip_end, uint, prev_len_byte_diff}
use project.Ziplist.Blob.{ziplist_bytes, resize, prevlen_at, make_space, insert}
use project.Ziplist.Memory.{get_elem?_at}
use project.Ziplist.Layout.{Node, node_size, node_bytes, node_first, length-node_bytes}
use project.Ziplist.Nodes
use project.Ziplist.Nodes.{IsZiplist, entries, last_size, header}
use project.Ziplist.Places.{offset, seen, text_small, node_some, last_size-le}
use project.Ziplist.Write.{plain, cut, required_size, counted_one, resize_grow, write_entry-header}
use project.Ziplist.Push.{count_kept}
use project.Ziplist.Middle.{Keeps, same_field, size_kept, moved}

space_shape :
    (E X J : Bytes)
    → (E ++ (X ++ zip_end ∷ [])) ++ (J ++ zip_end ∷ [])
      ≡ E ++ (X ++ ((zip_end ∷ J) ++ zip_end ∷ []))
space_shape E X J = simp append_assoc

-- Space in front of a node.
space_before :
    (junk : ℕ → ℕ) (t l c : ℕ) (E : Bytes) (prev req : ℕ) (n : Node) (after : Bytes) (p : ℕ)
    → Keeps prev req n
    → p ≡ length E + 10
    → t ≡ length E + node_size prev n + length after + 11
    → 0 < req
    → t + req < 2 ^ 32 - 32
    → l + req < 2 ^ 32
    → (o : Bytes) × (length o ≡ req)
      × (make_space junk
            (header t l c ++ (E ++ ((node_bytes prev n ++ after) ++ zip_end ∷ [])))
            p
            t
            req
            (pos 0)
          ≡ some (
              header (t + req) (l + req) c
              ++ (E ++ (o ++ (node_bytes req n ++ (after ++ zip_end ∷ []))))))
unfolding make_space
space_before junk t l c E prev zero n after p h at total some_byte small low = absurd (omega arith)
space_before junk t l c E prev (suc k) n after p h at total some_byte small low =
    let req : ℕ = suc k in
    let H = header (t + req) l c in
    let X = node_bytes prev n ++ after in
    let lX : length X ≡ node_size prev n + length after =
      length-append (node_bytes prev n) after
      ∙ ap (λ j. j + length after) (length-node_bytes prev n) in
    let (J, lJ, grown) =
      resize_grow junk t l c (E ++ (X ++ zip_end ∷ [])) (t + req) k
        (omega (arith, length-append E (X ++ zip_end ∷ []), length-append X (zip_end ∷ []))) in
    let space = zip_end ∷ J in
    let (o, old, e, lo, lold) =
      cut (X ++ space) req (length X) (omega (arith, length-append X space)) in
    let x = X ++ (space ++ zip_end ∷ []) in
    let shape : (E ++ (X ++ zip_end ∷ [])) ++ (J ++ zip_end ∷ []) ≡ E ++ x = space_shape E X J in
    let grown' : resize junk (header t l c ++ (E ++ (X ++ zip_end ∷ []))) (t + req)
        ≡ some (H ++ (E ++ x)) =
      grown ∙ ap (λ y. some (H ++ y)) shape in
    let fits : uint (t + suc k + 0 - 0) ≡ t + req = mod-eq_of_lt (omega arith) ∙ omega arith in
    let (b, y, first, inner) = node_first prev n (after ++ (space ++ zip_end ∷ [])) in
    let byte : get_elem? (H ++ (E ++ x)) p ≡ some b =
      ap (λ z. get_elem? z p)
        (sym (append_assoc H E x)
          ∙ ap (λ z. (H ++ E) ++ z)
              (append_assoc (node_bytes prev n) after (space ++ zip_end ∷ []) ∙ first))
      ∙ get_elem?_at (H ++ E) b y p
          (omega (arith, length-append H E, Nodes.length-header (t + req) l c)) in
    let back =
      moved (t + req) l c E prev req n after space p t h at (ap suc lJ) total small low o old e lo
        lold in
    (o, lo, rw (fits, grown', ◌>>=◌, byte, ◌>>=◌, inner, back, ◌>>=◌) refl)

-- The nodes and one more in front of `n`, as they are laid out.
module _ (ns : List Node) (m n : Node) (ms : List Node)
    (h : Keeps (last_size 0 ns) (node_size (last_size 0 ns) m) n) where
  laid :
      entries 0 (ns ++ m ∷ n ∷ ms)
      ≡ entries 0 ns
        ++ (node_bytes (last_size 0 ns) m
            ++ (node_bytes (node_size (last_size 0 ns) m) n
                ++ entries (node_size (last_size 0 ns) n) ms))
  unfolding entries
  laid =
      let prev = last_size 0 ns in
      let req = node_size prev m in
      Nodes.entries-append 0 ns (m ∷ n ∷ ms)
      ∙ ap (λ k. entries 0 ns ++ (node_bytes prev m ++ (node_bytes req n ++ entries k ms)))
          (size_kept prev req n h)

  last_kept : last_size 0 (ns ++ m ∷ n ∷ ms) ≡ last_size 0 (ns ++ n ∷ ms)
  unfolding last_size
  last_kept =
      let prev = last_size 0 ns in
      Nodes.last_size-append 0 ns (m ∷ n ∷ ms)
      ∙ ap (λ k. last_size k ms) (size_kept prev (node_size prev m) n h)
      ∙ sym (Nodes.last_size-append 0 ns (n ∷ ms))

  before :
      entries 0 (ns ++ n ∷ ms)
      ≡ entries 0 ns ++ (node_bytes (last_size 0 ns) n ++ entries (node_size (last_size 0 ns) n) ms)
  unfolding entries
  before = Nodes.entries-append 0 ns (n ∷ ms)

-- The nodes with one more in front of `n`, in bytes.
inserted :
    (ns : List Node) (m n : Node) (ms : List Node) (t l c : ℕ)
    → Keeps (last_size 0 ns) (node_size (last_size 0 ns) m) n
    → t ≡ length (entries 0 (ns ++ n ∷ ms)) + 11
    → l + last_size 0 (ns ++ n ∷ ms) ≡ length (entries 0 (ns ++ n ∷ ms)) + 10
    → (c ≡ length (ns ++ n ∷ ms)) ⊎ (c ≡ 65535)
    → c < 2 ^ 16
    → t + node_size (last_size 0 ns) m < 2 ^ 32 - 32
    → IsZiplist
        (header
            (t + node_size (last_size 0 ns) m)
            (l + node_size (last_size 0 ns) m)
            (counted_one c)
          ++ (entries 0 ns
              ++ (node_bytes (last_size 0 ns) m
                  ++ (node_bytes (node_size (last_size 0 ns) m) n
                      ++ (entries (node_size (last_size 0 ns) n) ms ++ zip_end ∷ [])))))
        (ns ++ m ∷ n ∷ ms)
inserted ns m n ms t l c h te le cc csmall small =
    let prev = last_size 0 ns in
    let req = node_size prev m in
    let E = entries 0 ns in
    let M = node_bytes prev m in
    let N = node_bytes prev n in
    let N' = node_bytes req n in
    let after = entries (node_size prev n) ms in
    let kept = count_kept c (length (ns ++ n ∷ ms)) csmall cc in
    let many : length (ns ++ m ∷ n ∷ ms) ≡ suc (length (ns ++ n ∷ ms)) =
      omega (arith, length-append ns (m ∷ n ∷ ms), length-append ns (n ∷ ms)) in
    let long : length (entries 0 (ns ++ m ∷ n ∷ ms)) ≡ length (entries 0 (ns ++ n ∷ ms)) + req =
      omega (
        arith,
        ap length (laid ns m n ms h),
        ap length (before ns m n ms h),
        length-append E (M ++ (N' ++ after)),
        length-append M (N' ++ after),
        length-append N' after,
        length-append E (N ++ after),
        length-append N after,
        length-node_bytes prev m,
        length-node_bytes prev n,
        length-node_bytes req n,
        size_kept prev req n h,
      ) in
    let last = last_kept ns m n ms h in
    let shape : E ++ (M ++ (N' ++ (after ++ zip_end ∷ [])))
        ≡ (E ++ (M ++ (N' ++ after))) ++ zip_end ∷ [] =
      simp append_assoc in
    record {
      count = counted_one c;
      tail = l + req;
      total = t + req;
      layout =
          ap (λ y. header (t + req) (l + req) (counted_one c) ++ y)
            (shape ∙ ap (λ y. y ++ zip_end ∷ []) (sym (laid ns m n ms h)));
      sized = omega arith;
      at_last = omega arith;
      counted = subst (λ k. (counted_one c ≡ k) ⊎ (counted_one c ≡ 65535)) (sym many) kept.0;
      count_small = kept.1;
      small = omega arith;
    }

-- Inserting a text in front of a node, whose length field holds the new length in the bytes that it
-- has, gives a ziplist with the text there and all else as it was, where the size stays below
-- 2 ^ 32 - 32.
pub insert-IsZiplist :
    (junk : ℕ → ℕ) {zl : Bytes} (ns : List Node) (n : Node) (ms : List Node) (s : Bytes)
    (z : IsZiplist zl (ns ++ n ∷ ms))
    → Keeps (last_size 0 ns) (node_size (last_size 0 ns) (plain s)) n
    → z.total + node_size (last_size 0 ns) (plain s) < 2 ^ 32 - 32
    → (zl' : Bytes) × (insert junk zl (offset ns) s ≡ some zl')
      × IsZiplist zl' (ns ++ plain s ∷ n ∷ ms)
unfolding insert prevlen_at
insert-IsZiplist junk {zl} ns n ms s z h small =
    let prev = last_size 0 ns in
    let m = plain s in
    let req = node_size prev m in
    let E = entries 0 ns in
    let N = node_bytes prev n in
    let after = entries (node_size prev n) ms in
    let rest = node_bytes req n ++ (after ++ zip_end ∷ []) in
    let p : ℕ = offset ns in
    let at = seen ns n ms z (omega arith) in
    let fits = text_small prev m (omega arith) in
    let total =
      ap ziplist_bytes z.layout
      ∙ Nodes.ziplist_bytes-header z.total z.tail z.count (entries 0 (ns ++ n ∷ ms) ++ zip_end ∷ [])
          z.small in
    let shape : zl ≡ header z.total z.tail z.count ++ (E ++ ((N ++ after) ++ zip_end ∷ [])) =
      z.layout
      ∙ ap (λ y. header z.total z.tail z.count ++ (y ++ zip_end ∷ [])) (before ns m n ms h)
      ∙ simp append_assoc in
    let sizes : z.total ≡ length E + node_size prev n + length after + 11 = omega (
      arith,
      z.sized,
      ap length (before ns m n ms h),
      length-append E (N ++ after),
      length-append N after,
      length-node_bytes prev n,
    ) in
    let small_prev : prev < 2 ^ 32 = omega (arith, last_size-le 0 ns) in
    let low : z.tail + req < 2 ^ 32 = omega (arith, z.at_last, z.sized) in
    let small_req : uint req ≡ req = mod-eq_of_lt (omega arith) in
    let diff : prev_len_byte_diff (N ++ at.rest) req ≡ some (pos 0) =
      same_field prev req n at.rest h small_prev in
    let (o, lo, space) =
      space_before junk z.total z.tail z.count E prev req n after p h refl sizes (node_some prev m)
        small low in
    let space' : make_space junk zl p z.total req (pos 0)
        ≡ some (header (z.total + req) (z.tail + req) z.count ++ (E ++ (o ++ rest))) =
      ap (λ y. make_space junk y p z.total req (pos 0)) shape ∙ space in
    let written =
      write_entry-header (z.total + req) (z.tail + req) z.count E o rest prev s p fits z.count_small
        lo refl in
    (
      header (z.total + req) (z.tail + req) (counted_one z.count)
          ++ (E ++ (node_bytes prev m ++ rest)),
      rw
          (
            total,
            ◌>>=◌,
            at.first,
            ◌>>=◌,
            at.inner,
            at.dropped,
            at.reads.parsed,
            ◌>>=◌,
            at.reads.prevrawlen,
            required_size prev s fits,
            small_req,
            diff,
            ◌>>=◌,
            space',
            ◌>>=◌,
          )
          written,
      inserted ns m n ms z.total z.tail z.count h z.sized z.at_last z.counted z.count_small small,
    )
