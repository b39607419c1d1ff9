-- ===== src/Intset/Upgrade.antt =====
-- `intsetUpgradeAndAdd` of intset.c.
use project.Prelude.{
  ℕ, zero, suc, ◌+◌, ◌*◌, ◌%◌, ◌^◌, ◌≤◌, ◌<◌, ◌≡◌, refl, false, arith, inl, inr, ◌∙◌, ap,
  Bool-cases,
}
use native.Mathlib.Nat.{mod-eq_of_lt, le_refl}
use project.Prelude.Int.{ℤ, pos, ltb_ℤ, ltb_ℤ→lt, ltb_ℤ→le}
use project.Intset.Bytes.{InRange}
use project.Intset.{
  Intset, get, get_encoded, set, width, value_encoding, upgrade_loop, resize, upgrade_and_add,
}
use project.Intset.Search.{Searched}
use project.Intset.Shape.{
  IsEncoding, IsValid, Inserted, width-eq, get-set_self, get-set_ne, get-upgrade_loop,
}
use project.Intset.Encoding.{
  value_encoding-IsEncoding, value_encoding-le, beyond_above, beyond_below,
}
use project.Intset.Insert.{Inserted-All, Inserted-IsSorted, InRange-le, IsValid-of, relength-get}

upgrade_loop_fields :
    (n p curenc : ℕ) (is : Intset)
    → ((upgrade_loop n p curenc is).encoding ≡ is.encoding)
      × ((upgrade_loop n p curenc is).room ≡ is.room)
unfolding upgrade_loop set
upgrade_loop_fields zero p curenc is = (refl, refl)
upgrade_loop_fields (suc n) p curenc is = upgrade_loop_fields n p curenc _

width_mono : (e e' : ℕ) → IsEncoding e → IsEncoding e' → e < e' → width e ≤ width e'
width_mono e e' h h' lt = ground arith

abbrev enlarged : Intset → ℤ → Intset
enlarged is value = resize (record is { encoding = value_encoding value }) (is.length + 1)

-- The two ends of the upgrade: after the loop the value goes to the front or to the back.
module _ (is : Intset) (value : ℤ) (valid : IsValid is) (lt : is.encoding < value_encoding value)
    (r : InRange 8 value) where
  abbrev moved : ℕ → Intset
  moved p = upgrade_loop is.length p is.encoding (enlarged is value)

  fits : InRange (width (value_encoding value)) value
  fits =
      let enc = value_encoding-IsEncoding value in
      rw (width-eq _ enc) ((value_encoding-le value _ r enc).0 (le_refl _))

  moved-fits : (p : ℕ) → InRange (width (moved p).encoding) value
  unfolding resize
  moved-fits p = rw (upgrade_loop_fields is.length p is.encoding (enlarged is value)).0 fits

  get-moved : (p j : ℕ) → j < is.length → get (moved p) (j + p) ≡ get is j
  unfolding resize get get_encoded
  get-moved p j bound =
      let enc = value_encoding-IsEncoding value in
      let wide : width is.encoding ≤ width (value_encoding value) =
        width_mono is.encoding (value_encoding value) valid.encoded enc lt in
      let all_fit : (i : ℕ) → i < is.length → InRange (width (value_encoding value)) (get is i) =
        λ i b. rw (width-eq _ enc) (
          InRange-le is.encoding (value_encoding value) (get is i) (omega arith)
            (valid.fits i b)) in
      ap (get_encoded (moved p) (j + p))
        (upgrade_loop_fields is.length p is.encoding (enlarged is value)).0
      ∙ (get-upgrade_loop is.length p is.encoding (enlarged is value) wide all_fit).0 j bound

  pub upgrade-Inserted :
      (i : ℕ) × Inserted is value i (upgrade_and_add is value) × Searched is value (false, i)
  unfolding upgrade_and_add
  upgrade-Inserted = elim (Bool-cases (ltb_ℤ value (pos 0))) [
    | inl neg ↦ rw neg (
      0,
      record {
        len = refl;
        place = omega arith;
        before = λ j none. elim none [ ];
        here =
            relength-get (set (moved 1) 0 value) _ 0
            ∙ get-set_self (moved 1) value 0 (moved-fits 1);
        after = λ j lo bound.
            relength-get (set (moved 1) 0 value) _ (suc j)
            ∙ get-set_ne (moved 1) value 0 (suc j) (omega arith)
            ∙ ap (get (moved 1)) (omega arith)
            ∙ get-moved 1 j bound;
      },
      (
        omega arith,
        λ j none. elim none [ ],
        λ j lo bound.
            beyond_below value (get is j) is.encoding valid.encoded lt (valid.fits j bound)
              (ltb_ℤ→lt value (pos 0) neg),
      ),
    )
    | inr nonneg ↦ rw nonneg (
      is.length,
      record {
        len = refl;
        place = omega arith;
        before = λ j bound.
            relength-get (set (moved 0) is.length value) _ j
            ∙ get-set_ne (moved 0) value is.length j (omega arith)
            ∙ ap (get (moved 0)) (omega arith)
            ∙ get-moved 0 j bound;
        here =
            relength-get (set (moved 0) is.length value) _ is.length
            ∙ get-set_self (moved 0) value is.length (moved-fits 0);
        after = λ j lo bound. absurd (omega arith);
      },
      (
        omega arith,
        λ j bound.
            beyond_above value (get is j) is.encoding valid.encoded lt (valid.fits j bound)
              (ltb_ℤ→le value (pos 0) nonneg),
        λ j lo bound. absurd (omega arith),
      ),
    )
  ]

upgrade_fields :
    (is : Intset) (value : ℤ)
    → ((upgrade_and_add is value).encoding ≡ value_encoding value)
      × ((upgrade_and_add is value).room ≡ ((is.length + 1) * value_encoding value) % 2 ^ 32)
unfolding upgrade_and_add resize set
upgrade_fields is value = elim (Bool-cases (ltb_ℤ value (pos 0))) [
  | inl neg ↦ rw neg (upgrade_loop_fields is.length 1 is.encoding (enlarged is value))
  | inr nonneg ↦ rw nonneg (upgrade_loop_fields is.length 0 is.encoding (enlarged is value))
]

pub upgrade-IsValid :
    (is : Intset) (value : ℤ) (valid : IsValid is) (lt : is.encoding < value_encoding value)
    → InRange 8 value
    → (is.length + 1) * value_encoding value < 2 ^ 32
    → (i : ℕ) → Inserted is value i (upgrade_and_add is value)
    → Searched is value (false, i)
    → IsValid (upgrade_and_add is value)
upgrade-IsValid is value valid lt r small i ins s =
    let (enc, room) = upgrade_fields is value in
    let e : ℕ = value_encoding value in
    IsValid-of (upgrade_and_add is value) e enc (value_encoding-IsEncoding value)
      (Inserted-All ins (InRange e)
        ((value_encoding-le value e r (value_encoding-IsEncoding value)).0 (le_refl e))
        (λ j b. InRange-le is.encoding e (get is j) (omega arith) (valid.fits j b)))
      (Inserted-IsSorted ins valid.sorted s) (rw (room, ins.len) (mod-eq_of_lt small))
