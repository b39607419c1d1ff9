-- ===== src/Util.antt =====
-- Numbers and text of redis-2.6.16/src/util.c. A C string is the list of its bytes; the byte
-- behind its end is the terminator 0.
pub mod Decimal
pub mod Canonical
pub mod Glob
mod Tests
use project.Prelude.{
  ℕ, zero, suc, ◌+◌, ◌-◌, ◌*◌, ◌/◌, ◌%◌, ◌^◌, Bool, true, false, ◌&&◌, ◌||◌, not, Option, none,
  some, List, [], ◌∷◌, ◌++◌, map, ltb, leb, ◌==◌, if◌then◌else◌, length, take, drop, get_or,
}
use project.Prelude.Int.{ℤ, pos, negsuc, ltb_ℤ}

abbrev pub Bytes : Type 0
Bytes = List ℕ

abbrev pub ullong_max : ℕ
ullong_max = 0xffff_ffff_ffff_ffff

abbrev pub llong_max : ℕ
llong_max = 0x7fff_ffff_ffff_ffff

-- The loop of ll2string, which writes the digits from the last one to the first. 20 digits hold
-- every 64-bit value; `fuel` counts them.
pub digits_loop : ℕ → ℕ → Bytes → Bytes
digits_loop zero v out = out
digits_loop (suc fuel) v out =
    let out' = (48 + v % 10) ∷ out in
    let rest = digits_loop fuel (v / 10) out' in if v / 10 == 0 then out' else rest

-- The magnitude that `(value < 0) ? -value : value` leaves in an unsigned long long.
pub magnitude : ℤ → ℕ
magnitude (pos n) = n
magnitude (negsuc n) = suc n

-- What ll2string writes to `s`, of `len` bytes with the terminator: the text cut to len - 1.
pub ll2string : ℕ → ℤ → Bytes
ll2string len value =
    let text = digits_loop 20 (magnitude value) [] in
    let text' = if ltb_ℤ value (pos 0) then b'-' ∷ text else text in
    if len == 0 then [] else if ltb len (length text' + 1) then take (len - 1) text' else text'

abbrev pub is_digit : ℕ → Bool
is_digit c = leb b'0' c && leb c b'9'

-- The loop of string2ll over the bytes behind the first digit: `none` on overflow, else the value
-- and the bytes that are left.
unfoldable pub parse_loop : ℕ → Bytes → Option (ℕ × Bytes)
parse_loop v [] = some (v, [])
parse_loop v (c ∷ s) =
    let rest = parse_loop (v * 10 + (c - b'0')) s in
    if is_digit c
    then (if ltb (ullong_max / 10) v
        then none
        else if ltb (ullong_max - (c - b'0')) (v * 10)
        then none
        else rest)
    else some (v, c ∷ s)

-- The bounds of a long long at the end of string2ll.
unfoldable pub signed_value : Bool → ℕ → Option ℤ
signed_value true v =
    if ltb (llong_max + 1) v then none else if v == 0 then some (pos 0) else some (negsuc (v - 1))
signed_value false v = if ltb llong_max v then none else some (pos v)

-- From the first digit on; `alone` says that the text has one byte.
unfoldable pub parse_digits : Bool → Bool → Bytes → Option ℤ
unfolding signed_value
parse_digits negative alone [] = none
parse_digits negative alone (c ∷ s) =
    if leb b'1' c && leb c b'9'
    then elim (parse_loop (c - b'0') s) [
      | none ↦ none
      | some (v, []) ↦ signed_value negative v
      | some (v, d ∷ r) ↦ none
    ]
    else if c == b'0' && alone
    then some (pos 0)
    else none

-- The value, where the text is the canonical form of a long long.
unfoldable pub string2ll : Bytes → Option ℤ
string2ll [] = none
string2ll (c ∷ s) =
    if length s == 0 && c == b'0'
    then some (pos 0)
    else if c == b'-'
    then parse_digits true false s
    else parse_digits false (length s == 0) (c ∷ s)

-- A long has 64 bits too, so both bounds hold.
pub string2l : Bytes → Option ℤ
string2l s = elim (string2ll s) [
  | none ↦ none
  | some v ↦ if ltb_ℤ v (negsuc llong_max) || ltb_ℤ (pos llong_max) v then none else some v
]

unfoldable pub tolower : ℕ → ℕ
tolower c = if leb b'A' c && leb c b'Z' then c + 32 else c
