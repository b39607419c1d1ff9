-- ===== src/Intset/Remove.antt =====
-- `intsetRemove` and `intsetFind` of intset.c.
use project.Prelude.{
  ℕ, suc, ◌+◌, ◌-◌, ◌*◌, ◌%◌, ◌^◌, ◌≤◌, ◌<◌, ◌≡◌, refl, ◌≢◌, Bool, true, false, ◌&&◌, ltb, leb,
  if◌then◌else◌, arith, ◌⊎◌, ◌↔◌, inl, inr, ◌∙◌, ap, sym, subst, Bool-cases, leb→lt,
}
use native.Mathlib.Decide.{dec_lt}
use native.Mathlib.Nat.{mod-eq_of_lt}
use project.Prelude.Int.{ℤ, lt_irrefl_ℤ}
use project.Intset.Bytes.{InRange}
use project.Intset.{Intset, get, value_encoding, move_tail, resize, search, remove, delete_at, find}
use project.Intset.Search.{IsSorted, Searched, unbounded_search-Searched}
use project.Intset.Shape.{IsValid, Contains, get-move_tail, get-move_tail_before}
use project.Intset.Encoding.{value_encoding-le}
use project.Intset.Insert.{IsValid-of, relength-get, resize-get}

-- `is'` has the elements of `is` but the one at `i`, in order.
pub record Removed (is : Intset) (i : ℕ) (is' : Intset) : Type 0 where
  pub len : is'.length + 1 ≡ is.length
  pub place : i < is.length
  pub before : (j : ℕ) → j < i → get is' j ≡ get is j
  pub after : (j : ℕ) → i ≤ j → j < is'.length → get is' j ≡ get is (suc j)

delete_at-Removed : (is : Intset) (i : ℕ) → i < is.length → Removed is i (delete_at is i)
unfolding delete_at
delete_at-Removed is i lt = elim (Bool-cases (ltb i (is.length - 1))) [
  | inl inside ↦
      let is₁ = move_tail is (i + 1) i in
      rw inside (record {
        len = omega arith;
        place = lt;
        before = λ j lo.
            relength-get (resize is₁ _) _ j
            ∙ resize-get is₁ _ j
            ∙ get-move_tail_before is (i + 1) i j lo;
        after = λ j hi bound.
            relength-get (resize is₁ _) _ j
            ∙ resize-get is₁ _ j
            ∙ get-move_tail is (i + 1) i j (suc j) hi (omega arith) (omega arith);
      })
  | inr last ↦ rw last (record {
    len = omega arith;
    place = lt;
    before = λ j lo. relength-get (resize is _) _ j ∙ resize-get is _ j;
    after = λ j hi bound. absurd (ground arith);
  })
]

module _ {is : Intset} {i : ℕ} {is' : Intset} (gone : Removed is i is') where
  -- The old index of an element.
  source :
      (j : ℕ)
      → j < is'.length
      → (k : ℕ) × (get is' j ≡ get is k)
        × (k < is.length)
        × ((j < i) × (k ≡ j) ⊎ (i ≤ j) × (k ≡ suc j))
  source j lt = elim (dec_lt j i) [
    | yes lo ↦ (j, gone.before j lo, omega (arith, gone.len), inl (lo, refl))
    | no lo ↦
        (suc j, gone.after j (omega arith) lt, omega (arith, gone.len), inr (omega arith, refl))
  ]

  Removed-IsSorted : IsSorted is → IsSorted is'
  Removed-IsSorted sorted j k lt bound =
      let (m, e, bm, cm) = source j (omega arith) in
      let (n, e', bn, cn) = source k bound in rw (e, e') (sorted m n (omega arith) bn)

  Removed-All :
      (P : ℤ → Type 0)
      → ((j : ℕ) → j < is.length → P (get is j))
      → (j : ℕ) → j < is'.length
      → P (get is' j)
  Removed-All P old j lt = let (k, e, b, c) = source j lt in rw e (old k b)

  -- Each value but the removed one is kept, and the removed one is gone.
  Removed-Contains : (v : ℤ) → v ≢ get is i → Contains is v → Contains is' v
  Removed-Contains v ne (j, lt, e) = elim (dec_lt j i) [
    | yes lo ↦ (j, omega (arith, gone.len, gone.place), gone.before j lo ∙ e)
    | no lo ↦
        let apart : j ≢ i = λ same. ne (sym e ∙ ap (get is) same) in
        let step : j ≡ suc (j - 1) = omega arith in
        (
          j - 1,
          omega (arith, gone.len),
          gone.after (j - 1) (omega arith) (omega (arith, gone.len)) ∙ ap (get is) (sym step) ∙ e,
        )
  ]

  Removed-gone : IsSorted is → ¬ Contains is' (get is i)
  Removed-gone sorted (j, lt, e) =
      let (k, e', b, c) = source j lt in
      let same : get is k ≡ get is i = sym e' ∙ e in
      elim (dec_lt k i) [
        | yes lo ↦ lt_irrefl_ℤ _ _ same (sorted k i lo gone.place)
        | no lo ↦ lt_irrefl_ℤ _ _ (sym same) (sorted i k (omega arith) b)
      ]

not_found : (is : Intset) (value : ℤ) (i : ℕ) → Searched is value (false, i) → ¬ Contains is value
not_found is value i s (j, lt, e) = elim (dec_lt j i) [
  | yes lo ↦ lt_irrefl_ℤ _ _ e (s.1 j lo)
  | no lo ↦ lt_irrefl_ℤ _ _ (sym e) (s.2 j (omega arith) lt)
]

delete_at_fields :
    (is : Intset) (i : ℕ)
    → ((delete_at is i).encoding ≡ is.encoding)
      × ((delete_at is i).room ≡ ((is.length - 1) * is.encoding) % 2 ^ 32)
unfolding delete_at
delete_at_fields is i = elim (Bool-cases (ltb i (is.length - 1))) [
  | inl inside ↦ rw inside (refl, refl)
  | inr last ↦ rw last (refl, refl)
]

shrink : (n e : ℕ) → n * e < 2 ^ 32 → (n - 1) * e < 2 ^ 32
shrink n e small = grind arith

delete_at-IsValid :
    (is : Intset) (i : ℕ)
    → IsValid is
    → is.length * is.encoding < 2 ^ 32
    → i < is.length
    → IsValid (delete_at is i)
delete_at-IsValid is i valid small lt =
    let gone = delete_at-Removed is i lt in
    let (enc, room) = delete_at_fields is i in
    let len : (delete_at is i).length ≡ is.length - 1 = omega (arith, gone.len) in
    IsValid-of (delete_at is i) is.encoding enc valid.encoded
      (Removed-All gone (InRange is.encoding) valid.fits) (Removed-IsSorted gone valid.sorted)
      (rw (room, len) (mod-eq_of_lt (shrink is.length is.encoding small)))

-- What `remove` does: a value that is not there changes nothing, and any other is taken out alone.
abbrev pub RemovedBy : Intset → ℤ → Intset × Bool → Type 0
RemovedBy is value (is', false) = (is' ≡ is) × ¬ Contains is value
RemovedBy is value (is', true) =
    (i : ℕ) × (get is i ≡ value) × Removed is i is' × IsValid is' × ¬ Contains is' value

removes :
    (is : Intset) (value : ℤ)
    → IsValid is
    → is.length * is.encoding < 2 ^ 32
    → (r : Bool × ℕ) → Searched is value r
    → RemovedBy is value (if true && r.0 then (delete_at is r.1, true) else (is, false))
removes is value valid small (true, i) s =
    let gone = delete_at-Removed is i s.0 in
    (
      i,
      s.1,
      gone,
      delete_at-IsValid is i valid small s.0,
      subst (λ v. ¬ Contains (delete_at is i) v) s.1 (Removed-gone gone valid.sorted),
    )
removes is value valid small (false, i) s = (refl, not_found is value i s)

-- A value that needs a larger encoding is not in the set.
too_large :
    (is : Intset) (value : ℤ)
    → IsValid is
    → InRange 8 value
    → leb (value_encoding value) is.encoding ≡ false
    → ¬ Contains is value
too_large is value valid r larger (j, lt, e) =
    let fits : InRange is.encoding value = subst (InRange is.encoding) e (valid.fits j lt) in
    absurd (
      omega
        (arith, (value_encoding-le value is.encoding r valid.encoded).1 fits, leb→lt _ _ larger))

-- On a valid set of less than 2^32 bytes `remove`, given a 64-bit value, keeps the set valid, reports whether the value was there, and takes out
-- that value and no other: the elements before it stay, and those behind it move down by one.
pub remove-RemovedBy :
    (is : Intset) (value : ℤ)
    → IsValid is
    → InRange 8 value
    → is.length * is.encoding < 2 ^ 32
    → RemovedBy is value (remove is value)
unfolding remove
remove-RemovedBy is value valid r small =
    elim (Bool-cases (leb (value_encoding value) is.encoding)) [
      | inl fits ↦ rw fits (
          removes is value valid small (search is value)
            (unbounded_search-Searched is value valid.sorted))
      | inr larger ↦ rw larger (refl, too_large is value valid r larger)
    ]

found-Contains :
    (is : Intset) (value : ℤ) (r : Bool × ℕ)
    → Searched is value r
    → (r.0 ≡ true) ↔ Contains is value
found-Contains is value (true, i) s = (λ _. (i, s.0, s.1), λ _. refl)
found-Contains is value (false, i) s = (λ h. cc, λ c. absurd (not_found is value i s c))

-- On a valid set of less than 2^30 elements, where the sum of two of the source's int indices does
-- not overflow, `find` answers 1 exactly for the 64-bit values that the set contains.
pub find-Contains :
    (is : Intset) (value : ℤ)
    → IsValid is
    → InRange 8 value
    → is.length < 2 ^ 30
    → (find is value ≡ true) ↔ Contains is value
unfolding find
find-Contains is value valid r small = elim (Bool-cases (leb (value_encoding value) is.encoding)) [
  | inl fits ↦
      rw fits (
        found-Contains is value (search is value) (unbounded_search-Searched is value valid.sorted))
  | inr larger ↦ rw larger (λ h. cc, λ c. absurd (too_large is value valid r larger c))
]
