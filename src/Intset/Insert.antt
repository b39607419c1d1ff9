-- ===== src/Intset/Insert.antt =====
-- Putting a value into an intset of intset.c that keeps its encoding.
use project.Prelude.{
  ℕ, suc, ◌+◌, ◌-◌, ◌*◌, ◌%◌, ◌^◌, ◌≤◌, ◌<◌, ◌≡◌, refl, false, ltb, arith, inl, inr, ◌∙◌, ap, sym,
  subst, Bool-cases,
}
use native.Mathlib.Decide.{dec_lt}
use native.Mathlib.Nat.{pow-le-pow_right}
use project.Prelude.Int.{ℤ, pos, negsuc, ◌<ℤ◌}
use project.Intset.Bytes.{InRange}
use project.Intset.{Intset, get, get_encoded, set, width, move_tail, resize, insert_at}
use project.Intset.Search.{IsSorted, Searched}
use project.Intset.Shape.{
  IsEncoding, IsValid, Contains, Inserted, get-set_self, get-set_ne, get-move_tail,
  get-move_tail_before,
}

module _ {is : Intset} {value : ℤ} {i : ℕ} {is' : Intset} (ins : Inserted is value i is') where
  -- Where an element of the new set comes from.
  data At (j : ℕ) : Type 0 where
    old_before : j < i → get is' j ≡ get is j → At j
    new_here : j ≡ i → get is' j ≡ value → At j
    old_after : (k : ℕ) → j ≡ suc k → i ≤ k → k < is.length → get is' j ≡ get is k → At j

  at : (j : ℕ) → j < is'.length → At j
  at j lt = elim (dec_lt j i) [
    | yes lo ↦ old_before lo (ins.before j lo)
    | no lo ↦ elim (dec_lt i j) [
      | yes hi ↦
          let e : j ≡ suc (j - 1) = omega arith in
          let bound : j - 1 < is.length = omega (arith, ins.len) in
          old_after (j - 1) e (omega arith) bound
            (ap (get is') e ∙ ins.after (j - 1) (omega arith) bound)
      | no hi ↦ let e : j ≡ i = omega arith in new_here e (ap (get is') e ∙ ins.here)
    ]
  ]

  -- What holds of the new value and of the old elements holds of the new elements.
  pub Inserted-All :
      (P : ℤ → Type 0)
      → P value
      → ((j : ℕ) → j < is.length → P (get is j))
      → (j : ℕ) → j < is'.length
      → P (get is' j)
  Inserted-All P new old j lt = elim (at j lt) [
    | old_before lo e ↦ rw e (old j (omega (arith, ins.place)))
    | new_here _ e ↦ rw e new
    | old_after k _ _ bound e ↦ rw e (old k bound)
  ]

  ascends :
      (j k : ℕ)
      → IsSorted is
      → Searched is value (false, i)
      → j < k
      → At j
      → At k
      → get is' j <ℤ get is' k
  ascends j k sorted s lt (old_before lo e) (old_before lo' e') =
      rw (e, e') (sorted j k lt (omega (arith, ins.place)))
  ascends j k sorted s lt (old_before lo e) (new_here same e') = rw (e, e') (s.1 j lo)
  ascends j k sorted s lt (old_before lo e) (old_after m _ hi bound e') =
      rw (e, e') (sorted j m (omega arith) bound)
  ascends j k sorted s lt (new_here same e) (old_before lo e') = absurd (omega arith)
  ascends j k sorted s lt (new_here same e) (new_here same' e') = absurd (omega arith)
  ascends j k sorted s lt (new_here same e) (old_after m _ hi bound e') =
      rw (e, e') (s.2 m hi bound)
  ascends j k sorted s lt (old_after l f hi bound e) (old_before lo e') = absurd (omega arith)
  ascends j k sorted s lt (old_after l f hi bound e) (new_here same e') = absurd (omega arith)
  ascends j k sorted s lt (old_after l f hi bound e) (old_after m f' hi' bound' e') =
      rw (e, e') (sorted l m (omega arith) bound')

  -- In its place the value keeps the set sorted.
  pub Inserted-IsSorted : IsSorted is → Searched is value (false, i) → IsSorted is'
  Inserted-IsSorted sorted s j k lt bound =
      ascends j k sorted s lt (at j (omega arith)) (at k bound)

  pub Inserted-Contains : (v : ℤ) → Contains is v → Contains is' v
  Inserted-Contains v (j, lt, e) = elim (dec_lt j i) [
    | yes lo ↦ (j, omega (arith, ins.len), ins.before j lo ∙ e)
    | no lo ↦ (suc j, omega (arith, ins.len), ins.after j (omega arith) lt ∙ e)
  ]

pub resize-get : (is : Intset) (n j : ℕ) → get (resize is n) j ≡ get is j
unfolding resize get get_encoded
resize-get is n j = refl

pub insert_at_fields :
    (is : Intset) (value : ℤ) (i : ℕ)
    → ((insert_at is value i).encoding ≡ is.encoding)
      × ((insert_at is value i).room ≡ ((is.length + 1) * is.encoding) % 2 ^ 32)
unfolding insert_at
insert_at_fields is value i = ground arith

pub relength-get : (is : Intset) (n j : ℕ) → get (record is { length = n }) j ≡ get is j
unfolding get get_encoded
relength-get is n j = refl

pub insert_at-Inserted :
    (is : Intset) (value : ℤ) (i : ℕ)
    → InRange (width is.encoding) value
    → i ≤ is.length
    → Inserted is value i (insert_at is value i)
unfolding insert_at
insert_at-Inserted is value i r le = elim (Bool-cases (ltb i is.length)) [
  | inl inside ↦
      let is₁ = resize is (is.length + 1) in
      let is₂ = move_tail is₁ i (i + 1) in
      rw inside (record {
        len = refl;
        place = le;
        before = λ j lt.
            relength-get (set is₂ i value) _ j
            ∙ get-set_ne is₂ value i j (omega arith)
            ∙ get-move_tail_before is₁ i (i + 1) j (omega arith)
            ∙ resize-get is _ j;
        here = relength-get (set is₂ i value) _ i ∙ get-set_self is₂ value i r;
        after = λ j lo lt.
            relength-get (set is₂ i value) _ (suc j)
            ∙ get-set_ne is₂ value i (suc j) (omega arith)
            ∙ get-move_tail is₁ i (i + 1) (suc j) j (omega arith) (omega arith) lt
            ∙ resize-get is _ j;
      })
  | inr outside ↦
      let is₁ = resize is (is.length + 1) in
      rw outside (record {
        len = refl;
        place = le;
        before = λ j lt.
            relength-get (set is₁ i value) _ j
            ∙ get-set_ne is₁ value i j (omega arith)
            ∙ resize-get is _ j;
        here = relength-get (set is₁ i value) _ i ∙ get-set_self is₁ value i r;
        after = λ j lo lt. absurd (ground arith);
      })
]

pub InRange-le : (e e' : ℕ) (u : ℤ) → e ≤ e' → InRange e u → InRange e' u
InRange-le e e' (pos n) le r = omega (arith, pow-le-pow_right {n = 256} (omega arith) le)
InRange-le e e' (negsuc n) le r = omega (arith, pow-le-pow_right {n = 256} (omega arith) le)

pub IsValid-of :
    (is' : Intset) (e : ℕ)
    → is'.encoding ≡ e
    → IsEncoding e
    → ((j : ℕ) → j < is'.length → InRange e (get is' j))
    → IsSorted is'
    → is'.room ≡ is'.length * e
    → IsValid is'
IsValid-of is' e same enc fits sorted room = record {
  encoded = rw same enc;
  fits = λ j lt. subst (λ x. InRange x (get is' j)) (sym same) (fits j lt);
  sorted = sorted;
  allocated = rw same room;
}
