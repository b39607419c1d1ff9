-- ===== src/Ziplist/Reversed.antt =====
-- A ziplist read from its end, with indices below 0.
use mathlib.Core.Option
use mathlib.Core.List.{append_assoc, reverse-append, reverse-cons}
use project.Prelude.{
  ℕ, zero, suc, ◌-◌, ◌^◌, ◌≤◌, ◌<◌, ◌≡◌, refl, ◌∙◌, ap, sym, subst, inl, inr, some, none, Option,
  List, [], ◌∷◌, ◌++◌, length, length-append, take, drop, get_elem?, reverse, ltb, ltb→lt, ltb→le,
  lt→ltb, arith, Bool-cases,
}
use project.Prelude.Int.{negsuc}
use project.Prelude.Options.{◌>>=◌}
use project.Rdb.{Bytes}
use project.Ziplist.{zip_end}
use project.Ziplist.Blob.{tail_offset}
use project.Ziplist.Visit.{Value, get, reached, index}
use project.Ziplist.Layout.{Node}
use project.Ziplist.Memory.{take_at}
use project.Ziplist.Nodes
use project.Ziplist.Nodes.{IsZiplist, entries, last_size, header}
use project.Ziplist.Places.{offset, at_end}
use project.Ziplist.Walk.{at_node, get-node}
use project.Ziplist.Back.{last_view, take-append_le, index-back}
use project.Ziplist.Contents.{node_meaning, split_at, get_elem?-none}

-- ziplistGet at what ziplistIndex finds for -1 - i.
abbrev pub read_back : Bytes → ℕ → Option (Option Value)
read_back zl i =
    index zl (negsuc i) >>= λ at. elim at [ none ↦ some none | some p ↦ get (drop p zl) ]

nil_of_length : (ns : List Node) → length ns ≡ 0 → ns ≡ []
nil_of_length [] h = refl
nil_of_length (n ∷ ns) h = absurd (omega arith)

length-reverse : (ns : List Node) → length (reverse ns) ≡ length ns
length-reverse [] = refl
length-reverse (n ∷ ns) =
    ap length (reverse-cons n ns)
    ∙ omega (arith, length-append (reverse ns) (n ∷ []), length-reverse ns)

get_elem?-append :
    (xs : List Node) (y : Node) (ys : List Node) (i : ℕ)
    → i ≡ length xs
    → get_elem? (xs ++ y ∷ ys) i ≡ some y
get_elem?-append [] y ys zero e = refl
get_elem?-append [] y ys (suc i) e = absurd (omega arith)
get_elem?-append (x ∷ xs) y ys zero e = absurd (omega arith)
get_elem?-append (x ∷ xs) y ys (suc i) e = get_elem?-append xs y ys i (omega arith)

get_elem?-reverse :
    (ls : List Node) (m : Node) (rs : List Node)
    → get_elem? (reverse (ls ++ m ∷ rs)) (length rs) ≡ some m
get_elem?-reverse ls m rs =
    ap (λ x. get_elem? x (length rs))
      (reverse-append ls (m ∷ rs)
        ∙ ap (λ x. x ++ reverse ls) (reverse-cons m rs)
        ∙ append_assoc (reverse rs) (m ∷ []) (reverse ls))
    ∙ get_elem?-append (reverse rs) m (reverse ls) (length rs) (sym (length-reverse rs))

module _ {zl : Bytes} (bound : length zl < 2 ^ 32 - 32) where
  -- Of an empty ziplist nothing is read.
  read_back-nil : (i : ℕ) → IsZiplist zl [] → read_back zl i ≡ some none
  unfolding index reached last_size entries
  read_back-nil i z =
      let found =
        ap tail_offset z.layout
        ∙ Nodes.tail_offset-header z.total z.tail z.count (zip_end ∷ [])
            (omega (arith, z.at_last)) in
      let at : z.tail ≡ 10 = omega (arith, z.at_last) in
      rw (found, ◌>>=◌, at, at_end z, ◌>>=◌, at_end z, ◌>>=◌) refl

  reached-node :
      (ls : List Node) (m : Node) (rs : List Node)
      → IsZiplist zl (ls ++ m ∷ rs)
      → reached zl (offset ls, 0) ≡ some (some (offset ls))
  unfolding reached
  reached-node ls m rs z = let at = at_node bound ls m rs z in rw (at.first, ◌>>=◌, at.inner) refl

  reached-none :
      (ls : List Node) (m : Node) (rs : List Node) (left : ℕ)
      → IsZiplist zl (ls ++ m ∷ rs)
      → 0 < left
      → reached zl (offset ls, left) ≡ some none
  unfolding reached
  reached-none ls m rs left z more =
      let at = at_node bound ls m rs z in rw (at.first, ◌>>=◌, at.inner, lt→ltb 0 left more) refl

module _ {zl : Bytes} (ns front : List Node) (n : Node) (i : ℕ) (z : IsZiplist zl ns)
    (e : ns ≡ front ++ n ∷ []) (bound : length zl < 2 ^ 32 - 32) where
  many : length ns ≡ suc (length front)
  many = ap length e ∙ length-append front (n ∷ []) ∙ omega arith

  read_back-inside :
      i < length ns → read_back zl i ≡ some (Option.map node_meaning (get_elem? (reverse ns) i))
  read_back-inside inside =
      let k = length front - i in
      let (ls, m, rs, e', l, g) = split_at ns k (omega (arith, many)) in
      let z' = subst (IsZiplist zl) e' z in
      let same : take k front ≡ ls =
        sym (take-append_le k front (n ∷ []) (omega arith))
        ∙ ap (take k) (sym e ∙ e')
        ∙ take_at ls (m ∷ rs) k (sym l) in
      let behind : i ≡ length rs = omega (arith, many, ap length e', length-append ls (m ∷ rs)) in
      let none_left : i - length front ≡ 0 = omega (arith, many) in
      let at : index zl (negsuc i) ≡ some (some (offset ls)) =
        index-back bound front n i (subst (IsZiplist zl) e z)
        ∙ ap (λ x. reached zl (offset x, i - length front)) same
        ∙ ap (λ x. reached zl (offset ls, x)) none_left
        ∙ reached-node bound ls m rs z' in
      let found : get_elem? (reverse ns) i ≡ some m =
        ap (λ x. get_elem? (reverse x) i) e'
        ∙ ap (get_elem? (reverse (ls ++ m ∷ rs))) behind
        ∙ get_elem?-reverse ls m rs in
      rw (at, ◌>>=◌, get-node bound ls m rs z', found) refl

  read_back-outside :
      length ns ≤ i → read_back zl i ≡ some (Option.map node_meaning (get_elem? (reverse ns) i))
  read_back-outside outside =
      let (ls, m, rs, e', l, g) = split_at ns 0 (omega (arith, many)) in
      let nothing : ls ≡ [] = nil_of_length ls l in
      let first : IsZiplist zl (m ∷ rs) =
        subst (IsZiplist zl) (e' ∙ ap (λ x. x ++ m ∷ rs) nothing) z in
      let none_taken : length front - i ≡ 0 = omega (arith, many) in
      let at : index zl (negsuc i) ≡ some none =
        index-back bound front n i (subst (IsZiplist zl) e z)
        ∙ ap (λ x. reached zl (offset (take x front), i - length front)) none_taken
        ∙ reached-none bound [] m rs (i - length front) first (omega (arith, many)) in
      let found : get_elem? (reverse ns) i ≡ none =
        get_elem?-none (reverse ns) i (omega (arith, length-reverse ns)) in
      rw (at, ◌>>=◌, found) refl

-- What is read at -1 - i is what the node there, counted from the end, stands for, and nothing where
-- there is none.
pub read_back-reverse :
    {zl : Bytes} (ns : List Node) (i : ℕ)
    → IsZiplist zl ns
    → length zl < 2 ^ 32 - 32
    → read_back zl i ≡ some (Option.map node_meaning (get_elem? (reverse ns) i))
read_back-reverse {zl} ns i z bound = elim (last_view ns) [
  | inl e ↦ rw e (read_back-nil bound i (subst (IsZiplist zl) e z))
  | inr (front, n, e) ↦ elim (Bool-cases (ltb i (length ns))) [
    | inl inside ↦ read_back-inside ns front n i z e bound (ltb→lt i (length ns) inside)
    | inr outside ↦ read_back-outside ns front n i z e bound (ltb→le i (length ns) outside)
  ]
]
