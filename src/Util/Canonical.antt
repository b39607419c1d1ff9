-- ===== src/Util/Canonical.antt =====
-- The texts that `string2ll` of util.c reads are those that `ll2string` writes.
use mathlib.Core.List.{append-nil}
use project.Prelude.{
  ℕ, zero, suc, ◌+◌, ◌-◌, ◌*◌, ◌/◌, ◌%◌, ◌^◌, ◌≤◌, ◌<◌, ◌≡◌, refl, Bool, true, false, some, none,
  [], ◌∷◌, ◌++◌, ltb, leb, ◌==◌, ◌&&◌, length, arith, Bool-cases, inl, inr, ap, ◌∙◌, Option, ◌⊎◌,
}
use project.Prelude.Int.{ℤ, pos, negsuc}
use project.Util.Decimal.{text_of, text_of-pos, text_of-negsuc, ll2string-text_of}
use project.Util.{
  Bytes, digits_loop, ll2string, parse_loop, signed_value, parse_digits, string2ll, llong_max,
}

-- A digit that is parsed: the value goes on from there.
parse_loop-cons :
    (v c : ℕ) (s : Bytes) (w : ℕ)
    → parse_loop v (c ∷ s) ≡ some (w, [])
    → (48 ≤ c) × (c ≤ 57) × (parse_loop (v * 10 + (c - 48)) s ≡ some (w, []))
unfolding parse_loop
parse_loop-cons v c s w h = ground arith

parse_loop-nil : (v w : ℕ) → parse_loop v [] ≡ some (w, []) → v ≡ w
unfolding parse_loop
parse_loop-nil v w h = ground arith

-- Writing the digits again gives the text back.
parse_loop-digits_loop :
    (s : Bytes) (v w f : ℕ) (out : Bytes)
    → parse_loop v s ≡ some (w, [])
    → 0 < v
    → digits_loop (length s + f) w out ≡ digits_loop f v (s ++ out)
unfolding digits_loop
parse_loop-digits_loop [] v w f out h some_v =
    rw (parse_loop-nil v w h) (ap (λ k. digits_loop k w out) (omega arith))
parse_loop-digits_loop (c ∷ s) v w f out h some_v =
    let (lo, hi, h') = parse_loop-cons v c s w h in
    let ih = parse_loop-digits_loop s (v * 10 + (c - 48)) w (suc f) out h' (omega arith) in
    let q : (v * 10 + (c - 48)) / 10 ≡ v = omega arith in
    let m : 48 + (v * 10 + (c - 48)) % 10 ≡ c = omega arith in
    let more : (v == 0) ≡ false = ground arith in
    ap (λ k. digits_loop k w out) (omega arith) ∙ ih ∙ rw (q, m, more) refl

more_digits : (v d n w : ℕ) → (v * 10 + d) * 10 ^ n ≤ w → v * 10 ^ suc n ≤ w
more_digits v d n w h = let e : 10 ^ suc n ≡ 10 * 10 ^ n = omega arith in rw e (grind arith)

parse_loop-pow : (s : Bytes) (v w : ℕ) → parse_loop v s ≡ some (w, []) → v * 10 ^ length s ≤ w
parse_loop-pow [] v w h = omega (arith, parse_loop-nil v w h)
parse_loop-pow (c ∷ s) v w h =
    let (lo, hi, h') = parse_loop-cons v c s w h in
    let ih = parse_loop-pow s (v * 10 + (c - 48)) w h' in more_digits v (c - 48) (length s) w ih

pow_mono : (m n : ℕ) → m ≤ n → 10 ^ m ≤ 10 ^ n
pow_mono m zero h = let e : m ≡ 0 = omega arith in rw e (omega arith)
pow_mono m (suc n) h = elim (Bool-cases (leb m n)) [
  | inl le ↦ omega (arith, pow_mono m n (ground arith))
  | inr top ↦ let e : m ≡ suc n = ground arith in rw e (omega arith)
]

-- A number below 10^19 has no text of 20 digits or more.
few_digits : (n w : ℕ) → 10 ^ n ≤ w → w < 10 ^ 20 → n < 20
few_digits n w h h' = elim (Bool-cases (ltb n 20)) [
  | inl few ↦ ground arith
  | inr many ↦ absurd (omega (arith, pow_mono 20 n (ground arith)))
]

one_digit : (k d : ℕ) (out : Bytes) → 0 < k → d < 10 → digits_loop k d out ≡ (48 + d) ∷ out
unfolding digits_loop
one_digit zero d out h lt = absurd (omega arith)
one_digit (suc k) d out h lt =
    let q : d / 10 ≡ 0 = omega arith in let m : d % 10 ≡ d = omega arith in rw (q, m) refl

signed_value_bound :
    (negative : Bool) (w : ℕ) (v : ℤ) → signed_value negative w ≡ some v → w ≤ llong_max + 1
unfolding signed_value
signed_value_bound true w v h = ground arith
signed_value_bound false w v h = ground arith

times_le : (d m w : ℕ) → 0 < d → d * m ≤ w → m ≤ w
times_le d m w some_d h = grind arith

-- A text of digits that does not start with 0 is what is written for its value.
digits_text :
    (c : ℕ) (s : Bytes) (w : ℕ)
    → 49 ≤ c
    → c ≤ 57
    → parse_loop (c - 48) s ≡ some (w, [])
    → w ≤ llong_max + 1
    → (0 < w) × (digits_loop 20 w [] ≡ c ∷ s)
digits_text c s w lo hi h small =
    let large : 10 ^ length s ≤ w =
      times_le (c - 48) (10 ^ length s) w (omega arith) (parse_loop-pow s (c - 48) w h) in
    let few : length s < 20 = few_digits (length s) w large (omega arith) in
    let k : ℕ = 20 - length s in
    let rounds : 20 ≡ length s + k = omega arith in
    let first : 48 + (c - 48) ≡ c = omega arith in
    (
      omega (arith, large, pow_mono 0 (length s) (omega arith)),
      ap (λ f. digits_loop f w []) rounds
          ∙ parse_loop-digits_loop s (c - 48) w k [] h (omega arith)
          ∙ one_digit k (c - 48) (s ++ []) (omega arith) (omega arith)
          ∙ rw (first, append-nil s) refl,
    )

-- A text behind its sign that is read, and is not 0.
abbrev IsWritten : Bool → Bytes → ℤ → Type 0
IsWritten negative s v =
    (w : ℕ) × (0 < w) × (signed_value negative w ≡ some v) × (digits_loop 20 w [] ≡ s)

parsed_text :
    (negative : Bool) (c : ℕ) (s : Bytes) (v : ℤ)
    → 49 ≤ c
    → c ≤ 57
    → (p : Option (ℕ × Bytes)) → parse_loop (c - 48) s ≡ p
    → elim p [ none ↦ none | some (w, []) ↦ signed_value negative w | some (w, d ∷ r) ↦ none ]
      ≡ some v
    → IsWritten negative (c ∷ s) v
parsed_text negative c s v lo hi none e h = cc
parsed_text negative c s v lo hi (some (w, d ∷ r)) e h = cc
parsed_text negative c s v lo hi (some (w, [])) e h =
    let (some_w, text) = digits_text c s w lo hi e (signed_value_bound negative w v h) in
    (w, some_w, h, text)

parse_digits_text :
    (negative alone : Bool) (c : ℕ) (s : Bytes) (v : ℤ)
    → parse_digits negative alone (c ∷ s) ≡ some v
    → (c ≡ b'0') × (v ≡ pos 0) × (alone ≡ true) ⊎ IsWritten negative (c ∷ s) v
unfolding parse_digits
parse_digits_text negative alone c s v h = elim (Bool-cases (leb b'1' c && leb c b'9')) [
  | inl digit ↦ inr (
      parsed_text negative c s v (ground arith) (ground arith) (parse_loop (c - b'0') s) refl
        (rw digit at h))
  | inr other ↦ inl (ground arith)
]

-- What a text that is read is written as.
abbrev written_as : ℤ → Bytes
written_as (pos n) = digits_loop 20 n []
written_as (negsuc n) = b'-' ∷ digits_loop 20 (suc n) []

positive_text : (s : Bytes) (v : ℤ) → IsWritten false s v → written_as v ≡ s
unfolding signed_value
positive_text s (pos n) (w, some_w, e, text) = let same : w ≡ n = ground arith in rw (← same) text
positive_text s (negsuc n) (w, some_w, e, text) = absurd (ground arith)

negative_text : (s : Bytes) (v : ℤ) → IsWritten true s v → written_as v ≡ b'-' ∷ s
unfolding signed_value
negative_text s (pos n) (w, some_w, e, text) = absurd (ground arith)
negative_text s (negsuc n) (w, some_w, e, text) =
    let same : w ≡ suc n = ground arith in rw (← same) (ap (λ t. b'-' ∷ t) text)

nil : (s : Bytes) → (length s == 0) ≡ true → s ≡ []
nil [] h = refl
nil (c ∷ s) h = absurd (ground arith)

minus_text : (s : Bytes) (v : ℤ) → parse_digits true false s ≡ some v → written_as v ≡ b'-' ∷ s
unfolding parse_digits
minus_text [] v h = cc
minus_text (c ∷ s) v h = elim (parse_digits_text true false c s v h) [
  | inl nought ↦ cc (nought.2)
  | inr w ↦ negative_text (c ∷ s) v w
]

zero_text : written_as (pos 0) ≡ b'0' ∷ []
unfolding digits_loop
zero_text = refl

string2ll-written_as : (s : Bytes) (v : ℤ) → string2ll s ≡ some v → written_as v ≡ s
unfolding string2ll
string2ll-written_as [] v h = cc
string2ll-written_as (c ∷ s) v h = elim (Bool-cases (length s == 0 && c == b'0')) [
  | inl nought ↦
      let e : v ≡ pos 0 = ground arith in
      let none_left : s ≡ [] = nil s (ground arith) in
      let c0 : c ≡ b'0' = ground arith in rw (e, none_left, c0) zero_text
  | inr other ↦ elim (Bool-cases (c == b'-')) [
    | inl minus ↦
        let sign : c ≡ b'-' = ground arith in rw sign (minus_text s v (rw (other, minus) at h))
    | inr plus ↦ elim (parse_digits_text false (length s == 0) c s v (rw (other, plus) at h)) [
      | inl nought ↦ absurd (ground arith)
      | inr w ↦ positive_text (c ∷ s) v w
    ]
  ]
]

written_as-text_of : (v : ℤ) → text_of v ≡ written_as v
written_as-text_of (pos n) = text_of-pos n
written_as-text_of (negsuc n) = text_of-negsuc n

-- A text that string2ll reads as a number is the one that ll2string writes for that number into a
-- buffer of 22 bytes or more.
pub ll2string-string2ll :
    (len : ℕ) (s : Bytes) (v : ℤ) → 22 ≤ len → string2ll s ≡ some v → ll2string len v ≡ s
ll2string-string2ll len s v room h =
    ll2string-text_of len v room ∙ written_as-text_of v ∙ string2ll-written_as s v h
