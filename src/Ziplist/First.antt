-- ===== src/Ziplist/First.antt =====
-- What ziplistFind looks for, said of the texts of the nodes.
use mathlib.Core.Option
use project.Prelude.{
  ℕ, zero, suc, ◌+◌, ◌-◌, ◌*◌, ◌^◌, ◌<◌, ◌≡◌, refl, ◌≢◌, ◌∙◌, ap, sym, subst, true, false, some,
  none, Option, List, [], ◌∷◌, length, ◌==◌, get_elem?, arith, Bool-cases, inl, inr,
}
use project.Prelude.Int.{ℤ, eq_of_ltb_ℤ, ltb_ℤ}
use project.Rdb.{Bytes}
use project.Ziplist.Visit.{Value, text, number, same_bytes, same_int, find}
use project.Ziplist.Layout.{Node, meaning}
use project.Ziplist.Nodes.{IsZiplist}
use project.Ziplist.Shown.{shown, shown-meaning}
use project.Ziplist.Find.{same_value, same_bytes→eq, position, offset_at, find-position}

same_int→eq : (a b : ℤ) → same_int a b ≡ true → a ≡ b
same_int→eq a b h = elim (Bool-cases (ltb_ℤ a b)) [
  | inl low ↦ cc (rw low at h)
  | inr low ↦ elim (Bool-cases (ltb_ℤ b a)) [
    | inl high ↦ cc (rw (low, high) at h)
    | inr high ↦ eq_of_ltb_ℤ a b low high
  ]
]

same_int_refl : (a : ℤ) → same_int a a ≡ true
same_int_refl a = ground arith

same_bytes_refl : (a : Bytes) → same_bytes a a ≡ true
unfolding same_bytes
same_bytes_refl [] = refl
same_bytes_refl (c ∷ a) = ground (arith, same_bytes_refl a)

same_value→eq : (a b : Value) → same_value a b ≡ true → a ≡ b
unfolding same_value
same_value→eq (text a) (text b) h = ap text (same_bytes→eq a b h)
same_value→eq (number v) (number w) h = ap number (same_int→eq v w h)
same_value→eq (text a) (number w) h = cc
same_value→eq (number v) (text b) h = cc

same_value_refl : (a : Value) → same_value a a ≡ true
unfolding same_value
same_value_refl (text a) = same_bytes_refl a
same_value_refl (number v) = same_int_refl v

-- Texts that stand for the same value are the same.
same_text : (w s : Bytes) → same_value (meaning w) (meaning s) ≡ true → w ≡ s
same_text w s h =
    sym (shown-meaning w) ∙ ap shown (same_value→eq (meaning w) (meaning s) h) ∙ shown-meaning s

other_text : (w s : Bytes) → same_value (meaning w) (meaning s) ≡ false → w ≢ s
other_text w s h e =
    let differ : same_value (meaning s) (meaning s) ≡ false = rw e at h in
    cc (sym differ ∙ same_value_refl (meaning s))

-- The index of the node compared after `k` others, where `count` nodes are left out in front and
-- `skip` between two.
abbrev pub compared : ℕ → ℕ → ℕ → ℕ
compared skip count k = count + k * (skip + 1)

-- The node at the index has the text.
abbrev pub HasText : List Node → ℕ → Bytes → Type 0
HasText ns i s = (n : Node) × (get_elem? ns i ≡ some n) × (n.text ≡ s)

-- The answer is the index of the first node compared that has the text, and `none` where no node
-- compared has it.
abbrev pub IsFirst : ℕ → ℕ → Bytes → List Node → Option ℕ → Type 0
IsFirst skip count s ns none = (k : ℕ) → ¬ HasText ns (compared skip count k) s
IsFirst skip count s ns (some i) =
    (k : ℕ) × (i ≡ compared skip count k)
    × HasText ns i s
    × ((j : ℕ) → j < k → ¬ HasText ns (compared skip count j) s)

-- Behind a node the indices are one less.
compared_zero : (skip k : ℕ) → compared skip 0 (suc k) ≡ suc (compared skip skip k)
compared_zero skip k = grind arith

behind :
    (n : Node) (ns : List Node) (i j : ℕ) (s : Bytes)
    → j ≡ suc i
    → HasText (n ∷ ns) j s
    → HasText ns i s
behind n ns i j s e h = subst (λ k. HasText (n ∷ ns) k s) e h

not_first : (n : Node) (ns : List Node) (s : Bytes) → n.text ≢ s → ¬ HasText (n ∷ ns) 0 s
not_first n ns s ne (m, e, t) = ne (ground arith)

module _ (skip : ℕ) (s : Bytes) (n : Node) (ns : List Node) where
  skipped :
      (count : ℕ) (o : Option ℕ)
      → IsFirst skip count s ns o
      → IsFirst skip (suc count) s (n ∷ ns) (Option.map suc o)
  skipped count none f = λ k h.
      f k (behind n ns (compared skip count k) (compared skip (suc count) k) s (omega arith) h)
  skipped count (some i) (k, e, here, before) = (
    k,
    omega arith,
    here,
    λ j lt h.
        before j lt
          (behind n ns (compared skip count j) (compared skip (suc count) j) s (omega arith) h),
  )

  first_zero : HasText (n ∷ ns) (compared skip 0 0) s → HasText (n ∷ ns) 0 s
  first_zero h =
      let e : compared skip 0 0 ≡ 0 = omega arith in subst (λ i. HasText (n ∷ ns) i s) e h

  before_missed :
      n.text ≢ s
      → (k : ℕ) → ((j : ℕ) → j < k → ¬ HasText ns (compared skip skip j) s)
      → (j : ℕ) → j < suc k
      → ¬ HasText (n ∷ ns) (compared skip 0 j) s
  before_missed ne k before zero lt h = not_first n ns s ne (first_zero h)
  before_missed ne k before (suc j) lt h =
      before j (omega arith)
        (behind n ns (compared skip skip j) (compared skip 0 (suc j)) s (compared_zero skip j) h)

  missed :
      (o : Option ℕ)
      → n.text ≢ s
      → IsFirst skip skip s ns o
      → IsFirst skip 0 s (n ∷ ns) (Option.map suc o)
  missed none ne f = λ k h. before_missed ne k (λ j lt. f j) k (omega arith) h
  missed (some i) ne (k, e, here, before) =
      (suc k, ap suc e ∙ sym (compared_zero skip k), here, before_missed ne k before)

no_node : (s : Bytes) (i : ℕ) → ¬ HasText [] i s
no_node s i (n, e, t) = cc

position-IsFirst :
    (s : Bytes) (skip count : ℕ) (ns : List Node)
    → IsFirst skip count s ns (position s skip count ns)
unfolding position
position-IsFirst s skip count [] = λ k h. no_node s (compared skip count k) h
position-IsFirst s skip zero (n ∷ ns) =
    let ih = position-IsFirst s skip skip ns in
    elim (Bool-cases (same_value (meaning n.text) (meaning s))) [
      | inl hit ↦
          rw hit (0, omega arith, (n, refl, same_text n.text s hit), λ j lt. absurd (omega arith))
      | inr miss ↦
          rw miss (missed skip s n ns (position s skip skip ns) (other_text n.text s miss) ih)
    ]
position-IsFirst s skip (suc count) (n ∷ ns) =
    let later : (suc count == 0) ≡ false = ground arith in
    let less : suc count - 1 ≡ count = omega arith in
    rw (later, less)
      (skipped skip s n ns count (position s skip count ns) (position-IsFirst s skip count ns))

-- On the bytes of a list of nodes ziplistFind, from the first entry on, answers the offset of the
-- first node that is compared, with `skip` nodes left out between two comparisons, and whose text
-- is the one looked for; and NULL where no node compared has it.
pub find-IsFirst :
    {zl : Bytes} (ns : List Node) (s : Bytes) (skip : ℕ)
    → IsZiplist zl ns
    → length zl < 2 ^ 32 - 32
    → (o : Option ℕ) × (find zl 10 s skip ≡ some (Option.map (offset_at [] ns) o))
      × IsFirst skip 0 s ns o
find-IsFirst ns s skip z bound =
    (position s skip 0 ns, find-position ns s skip z bound, position-IsFirst s skip 0 ns)
