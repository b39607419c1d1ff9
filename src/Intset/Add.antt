-- ===== src/Intset/Add.antt =====
-- `intsetAdd` of intset.c.
use project.Prelude.{
  ℕ, ◌+◌, ◌*◌, ◌^◌, ◌≤◌, ◌<◌, ◌≡◌, refl, Bool, true, false, ltb, if◌then◌else◌, arith, inl, inr,
  Bool-cases, ltb→lt, ltb→le,
}
use native.Mathlib.Nat.{mod-eq_of_lt}
use project.Prelude.Int.{ℤ}
use project.Intset.Bytes.{InRange}
use project.Intset.{Intset, value_encoding, search, add, insert_at}
use project.Intset.Search.{Searched, unbounded_search-Searched}
use project.Intset.Shape.{IsEncoding, IsValid, Contains, Inserted, width-eq}
use project.Intset.Encoding.{value_encoding-IsEncoding, value_encoding-le}
use project.Intset.Insert.{
  Inserted-All, Inserted-IsSorted, insert_at_fields, insert_at-Inserted, IsValid-of,
}
use project.Intset.Upgrade.{upgrade-Inserted, upgrade-IsValid}

-- What `add` does: a value that is there changes nothing; any other is put in its place.
abbrev pub Added : Intset → ℤ → Intset × Bool → Type 0
Added is value (is', false) = (is' ≡ is) × Contains is value
Added is value (is', true) =
    (i : ℕ) × Inserted is value i is' × Searched is value (false, i) × IsValid is'

insert_at-IsValid :
    (is : Intset) (value : ℤ) (i : ℕ)
    → IsValid is
    → InRange is.encoding value
    → (is.length + 1) * is.encoding < 2 ^ 32
    → Searched is value (false, i)
    → IsValid (insert_at is value i)
insert_at-IsValid is value i valid r small s =
    let ins = insert_at-Inserted is value i (rw (width-eq is.encoding valid.encoded) r) s.0 in
    let (enc, room) = insert_at_fields is value i in
    IsValid-of (insert_at is value i) is.encoding enc valid.encoded
      (Inserted-All ins (InRange is.encoding) r valid.fits) (Inserted-IsSorted ins valid.sorted s)
      (rw (room, ins.len) (mod-eq_of_lt small))

-- The branch that keeps the encoding, for any outcome of the search.
add_same :
    (is : Intset) (value : ℤ)
    → IsValid is
    → InRange is.encoding value
    → (is.length + 1) * is.encoding < 2 ^ 32
    → (r : Bool × ℕ) → Searched is value r
    → Added is value (if r.0 then (is, false) else (insert_at is value r.1, true))
add_same is value valid r small (true, i) s = (refl, (i, s.0, s.1))
add_same is value valid r small (false, i) s = (
  i,
  insert_at-Inserted is value i (rw (width-eq is.encoding valid.encoded) r) s.0,
  s,
  insert_at-IsValid is value i valid r small s,
)

pub scaled : (n e : ℕ) → e ≤ 8 → n * 8 < 2 ^ 32 → n * e < 2 ^ 32
scaled n e le small = grind arith

pub encoding-le : (e : ℕ) → IsEncoding e → e ≤ 8
encoding-le e enc = omega arith

-- On a valid set with room for one more element in 32 bits of size, `add` keeps the set valid,
-- reports whether the value was new, and puts a new value in its place: no other element changes.
pub add-Added :
    (is : Intset) (value : ℤ)
    → IsValid is
    → InRange 8 value
    → (is.length + 1) * 8 < 2 ^ 32
    → Added is value (add is value)
unfolding add
add-Added is value valid r small = elim (Bool-cases (ltb is.encoding (value_encoding value))) [
  | inl larger ↦
      let lt = ltb→lt is.encoding (value_encoding value) larger in
      let (i, ins, s) = upgrade-Inserted is value valid lt r in
      let small' : (is.length + 1) * value_encoding value < 2 ^ 32 =
        scaled (is.length + 1) _ (encoding-le _ (value_encoding-IsEncoding value)) small in
      rw larger (i, ins, s, upgrade-IsValid is value valid lt r small' i ins s)
  | inr same ↦ rw same (
      add_same is value valid
        ((value_encoding-le value is.encoding r valid.encoded).0 (ltb→le _ _ same))
        (scaled (is.length + 1) is.encoding (encoding-le is.encoding valid.encoded) small)
        (search is value) (unbounded_search-Searched is value valid.sorted))
]
