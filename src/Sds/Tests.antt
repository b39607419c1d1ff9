-- ===== src/Sds/Tests.antt =====
-- The checks of `main` in sds.c, and the theorems at small strings.
use project.Prelude.{
  ℕ, ◌-◌, ◌≤◌, ◌≡◌, refl, none, some, List, [], ◌∷◌, ◌++◌, length, replicate, arith,
}
use project.Prelude.Int.{pos, negsuc}
use project.Sds.{Bytes, Sds, make_room_for, cat_len, cpy_len, grow_zero, memcpy}
use project.Sds.Buffer.{Holds}
use project.Sds.Room.{make_room_for-Holds}
use project.Sds.Append.{cat_len-Holds, cpy_len-Holds, grow_zero-Holds}
use project.Sds.Quote.{cat_repr, split_args, round, token}
use project.Sds.Quote.Inverse.{split_args-cat_repr}
use project.Sds.Edit.{range, trim, cmp, to_upper, map_chars}
use project.Sds.Edit.Range.{range-Holds, slice, place}
use project.Sds.Split.{split_len}
use project.Sds.Split.Join.{join}
use project.Sds.Split.Tokens.{NoneHas, split_len-NoneHas}

abbrev zeros : ℕ → ℕ
zeros i = 0

-- "ciao", with two bytes free.
abbrev ciao : Sds
ciao = record { len = 4; free = 2; buf = b'c' ∷ b'i' ∷ b'a' ∷ b'o' ∷ 0 ∷ 1 ∷ 2 ∷ [] }

abbrev ciao_text : Bytes
ciao_text = b'c' ∷ b'i' ∷ b'a' ∷ b'o' ∷ []

ciao-Holds : Holds ciao ciao_text
ciao-Holds = record {
  valid = record { allocated = refl; terminated = refl; small = omega arith };
  reads = refl;
}

abbrev bar : Bytes
bar = b'b' ∷ b'a' ∷ b'r' ∷ []

cat_len-Holds_example :
    (s' : Sds) × (cat_len zeros ciao bar ≡ some s') × Holds s' (ciao_text ++ bar)
cat_len-Holds_example = cat_len-Holds zeros ciao ciao_text bar ciao-Holds (omega arith)

cpy_len-Holds_example : (s' : Sds) × (cpy_len zeros ciao bar ≡ some s') × Holds s' bar
cpy_len-Holds_example = cpy_len-Holds zeros ciao bar ciao-Holds.valid (omega arith)

grow_zero-Holds_example :
    (s' : Sds) × (grow_zero zeros ciao 9 ≡ some s')
    × Holds s' (ciao_text ++ replicate (9 - length ciao_text) 0)
grow_zero-Holds_example =
    grow_zero-Holds zeros ciao ciao_text 9 ciao-Holds (omega arith) (omega arith)

make_room_for-Holds_example :
    Holds (make_room_for zeros ciao 10) ciao_text × (10 ≤ (make_room_for zeros ciao 10).free)
make_room_for-Holds_example = make_room_for-Holds zeros ciao ciao_text 10 ciao-Holds (omega arith)

-- "ciao" from 1 to -2 is "ia".
range-Holds_example :
    (s' : Sds) × (range ciao (pos 1) (negsuc 1) ≡ some s')
    × Holds s'
        (slice ciao_text (place (length ciao_text) (pos 1)) (place (length ciao_text) (negsuc 1)))
range-Holds_example = range-Holds ciao ciao_text (pos 1) (negsuc 1) ciao-Holds

-- A quote, a newline, and a byte that is written in hexadecimal.
abbrev odd_text : Bytes
odd_text = b'"' ∷ 10 ∷ 0 ∷ 255 ∷ b'\\' ∷ b'x' ∷ []

split_args-cat_repr_example : split_args (cat_repr [] odd_text) ≡ some (odd_text ∷ [])
split_args-cat_repr_example = split_args-cat_repr odd_text (omega arith)

split_len-NoneHas_example :
    (ts : List Bytes) × (split_len (b'a' ∷ b'-' ∷ b'-' ∷ b'b' ∷ b'-' ∷ []) (b'-' ∷ b'-' ∷ [])
      ≡ some ts)
    × (join (b'-' ∷ b'-' ∷ []) ts ≡ b'a' ∷ b'-' ∷ b'-' ∷ b'b' ∷ b'-' ∷ [])
    × NoneHas (b'-' ∷ b'-' ∷ []) ts
split_len-NoneHas_example =
    split_len-NoneHas (b'a' ∷ b'-' ∷ b'-' ∷ b'b' ∷ b'-' ∷ []) (b'-' ∷ b'-' ∷ []) (omega arith)
      (omega arith)

split_two :
    split_len (b'a' ∷ b'-' ∷ b'-' ∷ b'b' ∷ b'-' ∷ []) (b'-' ∷ b'-' ∷ [])
    ≡ some ((b'a' ∷ []) ∷ (b'b' ∷ b'-' ∷ []) ∷ [])
unfolding split_len
split_two = refl

-- "foo"bar is refused, as is a quote that is not closed.
unbalanced :
    (split_args (b'"' ∷ b'a' ∷ b'"' ∷ b'b' ∷ []) ≡ none) × (split_args (b'\\' ∷ b'"' ∷ []) ≡ none)
unfolding split_args round token
unbalanced = (refl, refl)

-- "ciao" trimmed of "c" and "o".
trimmed :
    trim ciao (b'c' ∷ b'o' ∷ [])
    ≡ some (record { len = 2; free = 4; buf = b'i' ∷ b'a' ∷ 0 ∷ b'o' ∷ 0 ∷ 1 ∷ 2 ∷ [] })
unfolding trim memcpy
trimmed = refl

compared : (cmp ciao ciao ≡ pos 0) × (cmp (to_upper ciao) ciao ≡ negsuc 0)
unfolding cmp to_upper
compared = (refl, refl)

mapped :
    map_chars ciao (b'c' ∷ b'a' ∷ []) (b'0' ∷ b'1' ∷ [])
    ≡ record ciao { buf = b'0' ∷ b'i' ∷ b'1' ∷ b'o' ∷ 0 ∷ 1 ∷ 2 ∷ [] }
unfolding map_chars
mapped = refl
