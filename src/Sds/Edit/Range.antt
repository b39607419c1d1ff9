-- ===== src/Sds/Edit/Range.antt =====
-- What `sdsrange` and `sdstrim` of sds.c keep.
use project.Prelude.{
  ℕ, zero, suc, ◌+◌, ◌-◌, ◌%◌, ◌^◌, ◌≤◌, ◌≡◌, refl, false, some, [], ◌∷◌, ltb, leb, ◌==◌, length,
  take, drop, arith, ap, sym, ◌∙◌, subst, length-take, length-drop, Bool-cases, inl, inr, ==→eq,
  ltb→le, leb→le, leb→lt,
}
use project.Prelude.Int.{ℤ, pos, negsuc}
use project.Sds.{Bytes, Sds}
use project.Sds.Buffer.{Holds, Holds-memcpy}
use project.Sds.Room.{length-content}
use project.Sds.Append.{Holds_congr}
use project.Sds.Edit.{cut, from_end, span, range_bounds, range}

-- Bytes within the length are those of the string.
slice-content :
    (buf : Bytes) (len from n : ℕ)
    → n ≤ len - from
    → len ≤ length buf
    → take n (drop from buf) ≡ take n (drop from (take len buf))
slice-content buf len from zero h h' = refl
slice-content [] len from (suc n) h h' = absurd (omega arith)
slice-content (b ∷ buf) zero from (suc n) h h' = absurd (omega arith)
slice-content (b ∷ buf) (suc len) zero (suc n) h h' =
    ap (λ x. b ∷ x) (slice-content buf len zero n (omega arith) (omega arith))
slice-content (b ∷ buf) (suc len) (suc from) (suc n) h h' =
    slice-content buf len from (suc n) (omega arith) (omega arith)

-- Cutting within the string meets no fault.
pub cut-Holds :
    (s : Sds) (x : Bytes) (from n : ℕ)
    → Holds s x
    → n ≤ s.len - from
    → (s' : Sds) × (cut s from n ≡ some s') × Holds s' (take n (drop from x))
unfolding cut
cut-Holds s x from n h inside =
    let v = h.valid in
    let y : Bytes = take n (drop from s.buf) in
    let l : length y ≡ n =
      omega (arith, length-take n (drop from s.buf), length-drop from s.buf, v.allocated) in
    let (buf', e, held) =
      Holds-memcpy s.buf 0 y (s.len + s.free - n) (omega (arith, v.allocated, l))
        (omega (arith, v.small, l)) in
    let m : (s.free + (s.len - n)) % 2 ^ 32 ≡ s.len + s.free - n = omega (arith, v.small) in
    (
      record { len = n; free = s.len + s.free - n; buf = buf' },
      rw (e, m),
      Holds_congr (record { len = 0 + length y; free = s.len + s.free - n; buf = buf' }) n y
          (take n (drop from x)) held (omega (arith, l))
          (slice-content s.buf s.len from n inside (omega (arith, v.allocated))
            ∙ ap (λ z. take n (drop from z)) h.reads),
    )

-- The bytes at the indices from `start` to `end'`, both counted in.
abbrev pub slice : Bytes → ℕ → ℕ → Bytes
slice x start end' = take (end' + 1 - start) (drop start x)

take_past : (n m : ℕ) (x : Bytes) → length x ≤ n → length x ≤ m → take n x ≡ take m x
take_past zero zero x h h' = refl
take_past (suc n) zero [] h h' = refl
take_past zero (suc m) [] h h' = refl
take_past (suc n) (suc m) [] h h' = refl
take_past zero (suc m) (b ∷ x) h h' = absurd (omega arith)
take_past (suc n) zero (b ∷ x) h h' = absurd (omega arith)
take_past (suc n) (suc m) (b ∷ x) h h' =
    ap (λ y. b ∷ y) (take_past n m x (omega arith) (omega arith))

range_bounds-le :
    (len start end' : ℕ) → (range_bounds len start end').1 ≤ len - (range_bounds len start end').0
unfolding range_bounds span
range_bounds-le len start end' = ground arith

range_bounds-slice :
    (x : Bytes) (start end' : ℕ)
    → take (range_bounds (length x) start end').1 (drop (range_bounds (length x) start end').0 x)
      ≡ slice x start end'
unfolding range_bounds span
range_bounds-slice x start end' = elim (Bool-cases (ltb end' start)) [
  | inl crossed ↦ let none_left : end' + 1 - start ≡ 0 = ground arith in rw (crossed, none_left)
  | inr order ↦
      let le = ltb→le end' start order in
      let some_left : (end' - start + 1 == 0) ≡ false = ground arith in
      elim (Bool-cases (leb (length x) start)) [
        | inl past ↦
            rw (order, some_left, past)
              (take_past 0 (end' + 1 - start) (drop start x)
                (omega (arith, length-drop start x, leb→le (length x) start past))
                (omega (arith, length-drop start x, leb→le (length x) start past)))
        | inr inside ↦
            let lt = leb→lt (length x) start inside in
            elim (Bool-cases (leb (length x) end')) [
              | inl long ↦
                  let uncrossed : ltb (length x - 1) start ≡ false = ground arith in
                  rw (order, some_left, inside, long, uncrossed)
                    (take_past (length x - 1 - start + 1) (end' + 1 - start) (drop start x)
                      (omega (arith, length-drop start x))
                      (omega (arith, length-drop start x, leb→le (length x) end' long)))
              | inr short ↦
                  rw (order, some_left, inside, short)
                    (ap (λ n. take n (drop start x)) (omega arith))
            ]
      ]
]

range_bounds-congr :
    (len start end' : ℕ) (x : Bytes)
    → len ≡ length x
    → take (range_bounds len start end').1 (drop (range_bounds len start end').0 x)
      ≡ slice x start end'
range_bounds-congr len start end' x e = rw e (range_bounds-slice x start end')

nil : (x : Bytes) → length x ≡ 0 → x ≡ []
nil [] e = refl
nil (b ∷ x) e = absurd (omega arith)

slice_none : (x : Bytes) (start end' : ℕ) → length x ≡ 0 → x ≡ slice x start end'
slice_none x start end' e =
    let l = length-take (end' + 1 - start) (drop start x) in
    nil x e ∙ sym (nil (slice x start end') (omega (arith, l, length-drop start x)))

-- The place that an index stands for: -k is the length less k, and no place is below 0.
abbrev pub place : ℕ → ℤ → ℕ
place len (pos n) = n
place len (negsuc n) = len - (n + 1)

from_end-place : (len : ℕ) (i : ℤ) → from_end len i ≡ place len i
unfolding from_end
from_end-place len (pos n) = refl
from_end-place len (negsuc n) = omega arith

-- On a string in shape `range` meets no fault, and keeps the bytes from the index `start` to the
-- index `end'`, both counted in, where a negative index -k stands for the length less k, or for 0
-- where k is more than the length.
pub range-Holds :
    (s : Sds) (x : Bytes) (start end' : ℤ)
    → Holds s x
    → (s' : Sds) × (range s start end' ≡ some s')
      × Holds s' (slice x (place (length x) start) (place (length x) end'))
unfolding range
range-Holds s x start end' h =
    let l = length-content s x h in
    let a : ℕ = from_end s.len start in
    let b : ℕ = from_end s.len end' in
    let goal_bytes : slice x a b ≡ slice x (place (length x) start) (place (length x) end') =
      rw (from_end-place s.len start, from_end-place s.len end')
        (ap (λ n. slice x (place n start) (place n end')) (sym l)) in
    elim (Bool-cases (s.len == 0)) [
      | inl none_left ↦
          let e : x ≡ slice x a b = slice_none x a b (omega (arith, l, ==→eq s.len 0 none_left)) in
          (s, rw none_left, subst (Holds s) (e ∙ goal_bytes) h)
      | inr some_left ↦
          let (s', e, held) =
            cut-Holds s x (range_bounds s.len a b).0 (range_bounds s.len a b).1 h
              (range_bounds-le s.len a b) in
          (
            s',
            rw some_left e,
            subst (Holds s') (range_bounds-congr s.len a b x (sym l) ∙ goal_bytes) held,
          )
    ]
