-- ===== src/Util/Decimal.antt =====
-- Writing an integer with `ll2string` and reading it with `string2ll`, of util.c.
use project.Prelude.{
  ℕ, zero, suc, ◌+◌, ◌-◌, ◌*◌, ◌/◌, ◌%◌, ◌^◌, ◌≤◌, ◌<◌, ◌≡◌, refl, ◌≢◌, Bool, true, false, some, [],
  ◌∷◌, ltb, ◌==◌, if◌then◌else◌, length, arith, Bool-cases, inl, inr, ap, sym, ◌∙◌, Option, none,
  ◌&&◌, leb,
}
use project.Prelude.Int.{ℤ, pos, negsuc, ltb_ℤ}
use project.Util.{
  Bytes, digits_loop, magnitude, ll2string, parse_loop, signed_value, parse_digits, string2ll,
  ullong_max, llong_max,
}

-- One digit more.
parse_loop-digit :
    (v d : ℕ) (s : Bytes)
    → d < 10
    → v * 10 + d ≤ ullong_max
    → parse_loop v ((48 + d) ∷ s) ≡ parse_loop (v * 10 + d) s
unfolding parse_loop
parse_loop-digit v d s lt fits = let e : 48 + d - 48 ≡ d = omega arith in ground (arith, e)

-- The text of a positive number starts with a digit from 1 to 9, and parsing it from there leads
-- to the number, with what followed the text left to parse.
digits_loop-parse :
    (f v : ℕ) (out : Bytes)
    → 0 < v
    → v < 10 ^ f
    → v ≤ ullong_max
    → (c : ℕ) × (s : Bytes) × (digits_loop f v out ≡ c ∷ s)
      × (49 ≤ c)
      × (c ≤ 57)
      × (parse_loop (c - 48) s ≡ parse_loop v out)
unfolding digits_loop
digits_loop-parse zero v out some_v enough fits = absurd (omega arith)
digits_loop-parse (suc f) v out some_v enough fits = elim (Bool-cases (v / 10 == 0)) [
  | inl last ↦
      let small : v / 10 ≡ 0 = ground arith in
      (
        48 + v % 10,
        out,
        rw last,
        omega arith,
        omega arith,
        ap (λ n. parse_loop n out) (omega arith),
      )
  | inr more ↦
      let more' : v / 10 ≢ 0 = ground arith in
      let out' : Bytes = (48 + v % 10) ∷ out in
      let (c, s, e, lo, hi, p) =
        digits_loop-parse f (v / 10) out' (omega arith) (omega arith) (omega arith) in
      (
        c,
        s,
        rw more e,
        lo,
        hi,
        p
            ∙ parse_loop-digit (v / 10) (v % 10) out (omega arith) (omega arith)
            ∙ ap (λ n. parse_loop n out) (omega arith),
      )
]

length-digits_loop : (f v : ℕ) (out : Bytes) → length (digits_loop f v out) ≤ f + length out
unfolding digits_loop
length-digits_loop zero v out = omega arith
length-digits_loop (suc f) v out =
    ground (arith, length-digits_loop f (v / 10) ((48 + v % 10) ∷ out))

-- The text of a number behind its sign.
parse_digits-digits_loop :
    (negative alone : Bool) (v : ℕ)
    → 0 < v
    → v ≤ llong_max + 1
    → parse_digits negative alone (digits_loop 20 v []) ≡ signed_value negative v
unfolding parse_digits
parse_digits-digits_loop negative alone v some_v small =
    let (c, s, e, lo, hi, p) = digits_loop-parse 20 v [] some_v (omega arith) (omega arith) in
    let p' : parse_loop (c - 48) s ≡ some (v, []) = p ∙ unfold parse_loop in refl in
    rw e (ground (arith, p'))

-- The values of a long long.
abbrev pub IsLongLong : ℤ → Type 0
IsLongLong (pos n) = n ≤ llong_max
IsLongLong (negsuc n) = n ≤ llong_max

uncut : (len : ℕ) (text : Bytes) → length text ≤ 21 → 22 ≤ len → ltb len (length text + 1) ≡ false
uncut len text short room = ground arith

abbrev pub text_of : ℤ → Bytes
text_of v =
    if ltb_ℤ v (pos 0)
    then b'-' ∷ digits_loop 20 (magnitude v) []
    else digits_loop 20 (magnitude v) []

-- In a buffer of 22 bytes nothing is cut.
pub ll2string-text_of : (len : ℕ) (v : ℤ) → 22 ≤ len → ll2string len v ≡ text_of v
unfolding ll2string
ll2string-text_of len v room = ground (arith, length-digits_loop 20 (magnitude v) [])

-- The parser at a text that does not start with a sign or a 0.
string2ll-digits :
    (c : ℕ) (s : Bytes) → 49 ≤ c → string2ll (c ∷ s) ≡ parse_digits false (length s == 0) (c ∷ s)
unfolding string2ll
string2ll-digits c s lo = ground arith

string2ll-minus : (c : ℕ) (s : Bytes) → string2ll (b'-' ∷ c ∷ s) ≡ parse_digits true false (c ∷ s)
unfolding string2ll
string2ll-minus c s = ground arith

pub text_of-pos : (n : ℕ) → text_of (pos n) ≡ digits_loop 20 n []
unfolding magnitude
text_of-pos n = ground arith

pub text_of-negsuc : (n : ℕ) → text_of (negsuc n) ≡ b'-' ∷ digits_loop 20 (suc n) []
unfolding magnitude
text_of-negsuc n = ground arith

signed_value-lem :
    (n : ℕ)
    → n ≤ llong_max
    → (signed_value false n ≡ some (pos n)) × (signed_value true (suc n) ≡ some (negsuc n))
unfolding signed_value
signed_value-lem n r = (ground arith, ground arith)

module _ (n c : ℕ) (s : Bytes) (e : digits_loop 20 (suc n) [] ≡ c ∷ s) (lo : 49 ≤ c) where
  positive : suc n ≤ llong_max → string2ll (text_of (pos (suc n))) ≡ some (pos (suc n))
  positive r =
      let back =
        parse_digits-digits_loop false (length s == 0) (suc n) (omega arith) (omega arith) in
      ap string2ll (text_of-pos (suc n) ∙ e)
      ∙ string2ll-digits c s lo
      ∙ ap (parse_digits false (length s == 0)) (sym e)
      ∙ back
      ∙ (signed_value-lem (suc n) r).0

  negative : n ≤ llong_max → string2ll (text_of (negsuc n)) ≡ some (negsuc n)
  negative r =
      let back = parse_digits-digits_loop true false (suc n) (omega arith) (omega arith) in
      ap string2ll (text_of-negsuc n ∙ ap (λ t. b'-' ∷ t) e)
      ∙ string2ll-minus c s
      ∙ ap (parse_digits true false) (sym e)
      ∙ back
      ∙ (signed_value-lem n r).1

zero_text : string2ll (text_of (pos 0)) ≡ some (pos 0)
unfolding digits_loop magnitude string2ll
zero_text = refl

-- A long long that ll2string writes into a buffer of 22 bytes or more is read back by string2ll.
pub string2ll-ll2string :
    (len : ℕ) (v : ℤ) → 22 ≤ len → IsLongLong v → string2ll (ll2string len v) ≡ some v
string2ll-ll2string len (pos zero) room r = rw (ll2string-text_of len (pos 0) room) zero_text
string2ll-ll2string len (pos (suc n)) room r =
    let d = digits_loop-parse 20 (suc n) [] (omega arith) (omega arith) (omega arith) in
    rw (ll2string-text_of len (pos (suc n)) room) (positive n d.0 d.1 d.2 d.3 r)
string2ll-ll2string len (negsuc n) room r =
    let d = digits_loop-parse 20 (suc n) [] (omega arith) (omega arith) (omega arith) in
    rw (ll2string-text_of len (negsuc n) room) (negative n d.0 d.1 d.2 d.3 r)

signed_value-IsLongLong :
    (negative : Bool) (n : ℕ) (v : ℤ) → signed_value negative n ≡ some v → IsLongLong v
unfolding signed_value
signed_value-IsLongLong true n (pos m) e = ground arith
signed_value-IsLongLong true n (negsuc m) e = ground arith
signed_value-IsLongLong false n (pos m) e = ground arith
signed_value-IsLongLong false n (negsuc m) e = ground arith

abbrev after_digits : Bool → Bool → ℕ → Option (ℕ × Bytes) → Option ℤ
after_digits negative alone c parsed =
    if leb b'1' c && leb c b'9'
    then elim parsed [
      | none ↦ none
      | some (v, []) ↦ signed_value negative v
      | some (v, d ∷ r) ↦ none
    ]
    else if c == b'0' && alone
    then some (pos 0)
    else none

some_zero-IsLongLong :
    (t : Bool) (v : ℤ) → (if t then some (pos 0) else none) ≡ some v → IsLongLong v
some_zero-IsLongLong t (pos n) e = ground arith
some_zero-IsLongLong t (negsuc n) e = ground arith

parsed-IsLongLong :
    (negative alone : Bool) (c : ℕ) (parsed : Option (ℕ × Bytes)) (v : ℤ)
    → after_digits negative alone c parsed ≡ some v
    → IsLongLong v
parsed-IsLongLong negative alone c none v e = elim (Bool-cases (leb b'1' c && leb c b'9')) [
  | inl digit ↦ cc (rw digit at e)
  | inr other ↦ some_zero-IsLongLong (c == b'0' && alone) v (rw other at e)
]
parsed-IsLongLong negative alone c (some (n, [])) v e =
    elim (Bool-cases (leb b'1' c && leb c b'9')) [
      | inl digit ↦ signed_value-IsLongLong negative n v (rw digit at e)
      | inr other ↦ some_zero-IsLongLong (c == b'0' && alone) v (rw other at e)
    ]
parsed-IsLongLong negative alone c (some (n, d ∷ r)) v e =
    elim (Bool-cases (leb b'1' c && leb c b'9')) [
      | inl digit ↦ cc (rw digit at e)
      | inr other ↦ some_zero-IsLongLong (c == b'0' && alone) v (rw other at e)
    ]

parse_digits-IsLongLong :
    (negative alone : Bool) (s : Bytes) (v : ℤ)
    → parse_digits negative alone s ≡ some v
    → IsLongLong v
unfolding parse_digits
parse_digits-IsLongLong negative alone [] v e = cc
parse_digits-IsLongLong negative alone (c ∷ s) v e =
    parsed-IsLongLong negative alone c (parse_loop (c - b'0') s) v e

-- What is read from a text is a long long.
pub string2ll-IsLongLong : (s : Bytes) (v : ℤ) → string2ll s ≡ some v → IsLongLong v
unfolding string2ll
string2ll-IsLongLong [] v e = cc
string2ll-IsLongLong (c ∷ s) v e = elim (Bool-cases (length s == 0 && c == b'0')) [
  | inl nought ↦ some_zero-IsLongLong true v (rw nought at e)
  | inr long ↦ elim (Bool-cases (c == b'-')) [
    | inl minus ↦ parse_digits-IsLongLong true false s v (rw (long, minus) at e)
    | inr plus ↦ parse_digits-IsLongLong false (length s == 0) (c ∷ s) v (rw (long, plus) at e)
  ]
]

-- The text of a long long in a buffer of 22 bytes or more has 21 bytes at most.
pub length-ll2string : (len : ℕ) (v : ℤ) → 22 ≤ len → length (ll2string len v) ≤ 21
unfolding magnitude
length-ll2string len v room =
    rw (ll2string-text_of len v room) (ground (arith, length-digits_loop 20 (magnitude v) []))
