-- ===== src/Rdb.antt =====
-- Lengths and integers in the dump format of redis-2.6.16/src/rdb.c and rdb.h. The stream that is
-- written is an argument: its state, and a write that gives the new state or fails. What is read is
-- the list of bytes that are left. The machine is little-endian, so that htonl turns the bytes round.
pub mod Length
pub mod Integer
mod Tests
use project.Prelude.{
  ℕ, zero, suc, ◌+◌, ◌-◌, ◌*◌, ◌/◌, ◌%◌, ◌^◌, Bool, true, false, Option, none, some, List, [], ◌∷◌,
  ltb, ◌==◌, if◌then◌else◌, ◌||◌, length,
}
use project.Prelude.Int.{ℤ, pos, negsuc, ltb_ℤ}
use project.Intset.Bytes.{to_bits, of_bits}

abbrev pub Bytes : Type 0
Bytes = List ℕ

-- REDIS_RDB_6BITLEN and so on.
abbrev pub len_6bit : ℕ
len_6bit = 0

abbrev pub len_14bit : ℕ
len_14bit = 1

abbrev pub len_32bit : ℕ
len_32bit = 2

abbrev pub encval : ℕ
encval = 3

abbrev pub enc_int8 : ℕ
enc_int8 = 0

abbrev pub enc_int16 : ℕ
enc_int16 = 1

abbrev pub enc_int32 : ℕ
enc_int32 = 2

abbrev pub eq_ℤ : ℤ → ℤ → Bool
eq_ℤ (pos a) (pos b) = a == b
eq_ℤ (negsuc a) (negsuc b) = a == b
eq_ℤ (pos a) (negsuc b) = false
eq_ℤ (negsuc a) (pos b) = false

-- The four bytes of a number, the highest first.
abbrev pub big_endian : ℕ → Bytes
big_endian n = n / 2 ^ 24 % 256 ∷ n / 2 ^ 16 % 256 ∷ n / 2 ^ 8 % 256 ∷ n % 256 ∷ []

module _ {ℓ} {R : Type ℓ} (rio_write : R → Bytes → Option R) where
  -- rdbWriteRaw on a stream: the state after it, and the bytes written or -1. A stream that failed
  -- is left as it was.
  pub write_raw : R → Bytes → R × ℤ
  write_raw r p = elim (rio_write r p) [ none ↦ (r, negsuc 0) | some r' ↦ (r', pos (length p)) ]

  -- The last part of rdbSaveLen, with the comparison of the last write's result with -4.
  pub save_32bit : R → ℕ → R × ℤ
  unfolding write_raw
  save_32bit r len =
      let (r', n) = write_raw r (big_endian len) in
      if eq_ℤ n (negsuc 3) then (r', negsuc 0) else (r', pos 5)

  -- rdbSaveLen. The upper bits of the first byte, and the others, do not overlap, so `|` is a sum.
  pub save_len : R → ℕ → R × ℤ
  unfolding write_raw save_32bit
  save_len r len =
      if ltb len (2 ^ 6)
      then (let (r', n) = write_raw r ((len % 256 + len_6bit * 64) ∷ []) in
          if eq_ℤ n (negsuc 0) then (r', negsuc 0) else (r', pos 1))
      else if ltb len (2 ^ 14)
      then (let (r', n) = write_raw r ((len / 256 % 256 + len_14bit * 64) ∷ len % 256 ∷ []) in
          if eq_ℤ n (negsuc 0) then (r', negsuc 0) else (r', pos 2))
      else let (r', n) = write_raw r ((len_32bit * 64) ∷ []) in
        if eq_ℤ n (negsuc 0) then (r', negsuc 0) else save_32bit r' len

-- What rdbLoadLen leaves: its value, `*isencoded`, and the bytes that are left.
pub record Loaded : Type 0 where
  pub value : ℕ
  pub isencoded : Bool
  pub rest : Bytes

-- A length, and the number of an encoding.
abbrev pub loaded : ℕ → Bytes → Loaded
loaded n s = record { value = n; isencoded = false; rest = s }

abbrev pub encoded : ℕ → Bytes → Loaded
encoded n s = record { value = n; isencoded = true; rest = s }

-- REDIS_RDB_LENERR is UINT_MAX, a value that a length may have too.
abbrev pub len_err : ℕ
len_err = 0xffff_ffff

-- The four bytes of a length, the highest first.
pub load_32bit : Bytes → Loaded
load_32bit (c₃ ∷ c₂ ∷ c₁ ∷ c₀ ∷ s) = loaded (c₃ * 2 ^ 24 + c₂ * 2 ^ 16 + c₁ * 2 ^ 8 + c₀) s
load_32bit s = loaded len_err s

-- rdbLoadLen, where a read that finds too few bytes is an error and takes none.
pub load_len : Bytes → Loaded
unfolding load_32bit
load_len [] = loaded len_err []
load_len (b ∷ s) =
    let kind = b / 64 in
    if kind == encval
    then encoded (b % 64) s
    else if kind == len_6bit
    then loaded (b % 64) s
    else if kind == len_14bit
    then elim s [ [] ↦ loaded len_err [] | c ∷ s' ↦ loaded (b % 64 * 256 + c) s' ]
    else load_32bit s

-- `v >= -(1<<k) && v <= (1<<k)-1` fails.
abbrev pub out_of : ℕ → ℤ → Bool
out_of m v = ltb_ℤ v (negsuc (m - 1)) || ltb_ℤ (pos (m - 1)) v

-- The `w` lowest bytes of a number, the lowest first.
unfoldable pub little_endian : ℕ → ℕ → Bytes
little_endian zero n = []
little_endian (suc w) n = n % 256 ∷ little_endian w (n / 256)

-- rdbEncodeInteger: the bytes written to `enc`, none where 0 is returned.
pub encode_integer : ℤ → Bytes
unfolding little_endian
encode_integer v =
    if out_of (2 ^ 31) v
    then []
    else if out_of (2 ^ 15) v
    then (encval * 64 + enc_int32) ∷ little_endian 4 (to_bits 4 v)
    else if out_of (2 ^ 7) v
    then (encval * 64 + enc_int16) ∷ little_endian 2 (to_bits 2 v)
    else (encval * 64 + enc_int8) ∷ little_endian 1 (to_bits 1 v)

-- `enc[0]|(enc[1]<<8)|...`, with what follows; `none` where rioRead fails.
unfoldable pub read_little : ℕ → Bytes → Option (ℕ × Bytes)
read_little zero s = some (0, s)
read_little (suc w) [] = none
read_little (suc w) (b ∷ s) = elim (read_little w s) [
  | none ↦ none
  | some (n, s') ↦ some (b + 256 * n, s')
]

-- The value that rdbLoadIntegerObject reads, of an encoding that it knows.
pub load_integer : ℕ → Bytes → Option (ℤ × Bytes)
unfolding read_little
load_integer enctype s =
    let w = if enctype == enc_int8 then 1 else if enctype == enc_int16 then 2 else 4 in
    if ltb enc_int32 enctype
    then none
    else elim (read_little w s) [ none ↦ none | some (n, s') ↦ some (of_bits w n, s') ]
