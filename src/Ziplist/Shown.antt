-- ===== src/Ziplist/Shown.antt =====
-- What an entry of a ziplist holds, written as text again: a text that is turned into an integer
-- stays the same.
use project.Prelude.{
  ◌≤◌, ◌≡◌, refl, ap, false, some, [], ◌∷◌, length, ◌==◌, arith, Option-cases, inl, inr,
}
use project.Prelude.Int.{ℤ}
use project.Rdb.{Bytes}
use project.Util.{string2ll, ll2string}
use project.Util.Decimal.{IsLongLong, string2ll-ll2string, length-ll2string}
use project.Util.Canonical.{ll2string-string2ll}
use project.Ziplist.{try_encoding, integer_encoding}
use project.Ziplist.Visit.{Value, text, number}
use project.Ziplist.Layout.{meaning}
use project.Ziplist.Texts.{meaning_of, try_encoding-some}

-- The string, or the digits of the integer.
abbrev pub shown : Value → Bytes
shown (text b) = b
shown (number v) = ll2string 32 v

pub shown-meaning : (s : Bytes) → shown (meaning s) ≡ s
unfolding meaning
shown-meaning s = elim (Option-cases (try_encoding s)) [
  | inl e ↦ rw e refl
  | inr ((v, c), e) ↦ rw e (ll2string-string2ll 32 s v (omega arith) (try_encoding-some s v c e).0)
]

-- A text that is read as an integer is not empty.
not_nil : (s : Bytes) (v : ℤ) → string2ll s ≡ some v → (length s == 0) ≡ false
unfolding string2ll
not_nil [] v h = cc
not_nil (c ∷ s) v h = ground arith

short_integer :
    (s : Bytes) (v : ℤ)
    → string2ll s ≡ some v
    → length s ≤ 21
    → try_encoding s ≡ some (v, integer_encoding v)
unfolding try_encoding
short_integer s v h short = ground (arith, not_nil s v h)

-- The text that ll2string writes for an integer is held as that integer.
pub meaning-ll2string : (v : ℤ) → IsLongLong v → meaning (ll2string 32 v) ≡ number v
unfolding meaning
meaning-ll2string v r =
    ap (λ o. meaning_of o (ll2string 32 v))
      (short_integer (ll2string 32 v) v (string2ll-ll2string 32 v (omega arith) r)
        (length-ll2string 32 v (omega arith)))
