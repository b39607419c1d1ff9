-- ===== src/Util/Tests.antt =====
-- The tests of util.c, and its round trip at one value.
use project.Prelude.{◌≡◌, refl, none, some, [], ◌∷◌, arith, true, false, Bool, ◌↔◌}
use project.Prelude.Int.{pos, negsuc}
use project.Util.{
  Bytes, digits_loop, magnitude, ll2string, parse_loop, parse_digits, string2ll, string2l,
}
use project.Util.Glob.{string_match_len}
use project.Util.Glob.Literal.{folded, string_match_len-folded}
use project.Util.Decimal.{string2ll-ll2string}
use project.Util.Canonical.{ll2string-string2ll}

runs : Unit {0}
unfolding digits_loop magnitude ll2string parse_loop parse_digits string2ll string2l
runs = tt

-- "-1" and "+1", and "9223372036854775808", one past the largest value.
abbrev too_large : Bytes
too_large =
    b'9' ∷ b'2' ∷ b'2' ∷ b'3' ∷ b'3' ∷ b'7' ∷ b'2' ∷ b'0' ∷ b'3' ∷ b'6' ∷ b'8' ∷ b'5' ∷ b'4' ∷ b'7'
    ∷ b'7' ∷ b'5' ∷ b'8' ∷ b'0' ∷ b'8' ∷ []

test_string2ll :
    (string2ll (b'-' ∷ b'1' ∷ []) ≡ some (negsuc 0))
    × (string2ll (b'+' ∷ b'1' ∷ []) ≡ none)
    × (string2ll (b'0' ∷ b'1' ∷ []) ≡ none)
    × (string2ll too_large ≡ none)
    × (string2l (b'-' ∷ too_large) ≡ some (negsuc 0x7fff_ffff_ffff_ffff))
unfolding runs
test_string2ll = (refl, refl, refl, refl, refl)

-- A buffer of 4 bytes keeps 3 digits.
cut : ll2string 4 (pos 12345) ≡ b'1' ∷ b'2' ∷ b'3' ∷ []
unfolding runs
cut = refl

string2ll-ll2string_example : string2ll (ll2string 32 (negsuc 99)) ≡ some (negsuc 99)
string2ll-ll2string_example = string2ll-ll2string 32 (negsuc 99) (omega arith) (omega arith)

ll2string-string2ll_example : ll2string 32 (negsuc 0) ≡ b'-' ∷ b'1' ∷ []
ll2string-string2ll_example =
    ll2string-string2ll 32 (b'-' ∷ b'1' ∷ []) (negsuc 0) (omega arith) test_string2ll.0

-- "ab" and "aB", with case not counting.
string_match_len-folded_example :
    (b : Bool) × (string_match_len (b'a' ∷ b'b' ∷ []) (b'a' ∷ b'B' ∷ []) true ≡ some b)
    × ((b ≡ true) ↔ (folded true (b'a' ∷ b'b' ∷ []) ≡ folded true (b'a' ∷ b'B' ∷ [])))
string_match_len-folded_example =
    string_match_len-folded true (b'a' ∷ b'b' ∷ []) (b'a' ∷ b'B' ∷ []) (ground arith)

-- "[^a]*" matches the empty string, and with a byte behind the star the string is read behind its
-- terminator.
test_negated_class :
    (string_match_len (b'[' ∷ b'^' ∷ b'a' ∷ b']' ∷ b'*' ∷ []) [] false ≡ some true)
    × (string_match_len (b'[' ∷ b'^' ∷ b'a' ∷ b']' ∷ b'*' ∷ b'b' ∷ []) [] false ≡ none)
unfolding string_match_len
test_negated_class = (refl, refl)

-- "h*l[k-m]o" and "hello".
test_glob :
    string_match_len
      (b'h' ∷ b'*' ∷ b'l' ∷ b'[' ∷ b'k' ∷ b'-' ∷ b'm' ∷ b']' ∷ b'o' ∷ [])
      (b'h' ∷ b'e' ∷ b'l' ∷ b'l' ∷ b'o' ∷ [])
      false
    ≡ some true
unfolding string_match_len
test_glob = refl
