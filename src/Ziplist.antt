-- ===== src/Ziplist.antt =====
-- The entries of a ziplist, redis-2.6.16/src/ziplist.c: the encodings of lengths and integers, and
-- what is read of an entry. A pointer into the ziplist is the list of the bytes from there to the
-- end of the allocation, and reading behind it is a fault, `none`; so is a failed assert. The
-- machine is little-endian, so memrev32ifbe and the like do nothing.
mod Format
pub mod Encoding
pub mod Blob
pub mod Remove
pub mod Visit
pub mod Memory
pub mod Texts
pub mod Shown
pub mod Layout
pub mod Nodes
pub mod Places
pub mod Write
pub mod Push
pub mod Middle
pub mod Insert
pub mod Overread
pub mod Walk
pub mod Back
pub mod Contents
pub mod Reversed
pub mod Find
pub mod First
mod Tests
use project.Prelude.{
  ℕ, zero, suc, ◌+◌, ◌-◌, ◌*◌, ◌/◌, ◌%◌, ◌^◌, Bool, true, false, ◌&&◌, ◌||◌, Option, none, some, [],
  ◌∷◌, ◌++◌, ltb, leb, ◌==◌, if◌then◌else◌, length, drop,
}
use project.Prelude.Int.{ℤ, pos, negsuc, ltb_ℤ, sub_ℕ}
use project.Prelude.Options.{◌>>=◌, ◌>>◌, check}
use project.Intset.Bytes.{to_bits, of_bits}
use project.Rdb.{Bytes, little_endian, read_little, big_endian}
use project.Util.{string2ll}
pub use Format.{
  zip_end, big_len, str_06b, str_14b, str_32b, int_16b, int_32b, int_64b, int_24b, int_8b, imm_min,
  imm_max, is_str,
}

-- A value stored in an unsigned int.
abbrev pub uint : ℕ → ℕ
uint n = n % 2 ^ 32

-- zipIntSize
unfoldable pub int_size : ℕ → ℕ
int_size encoding =
    if encoding == int_8b
    then 1
    else if encoding == int_16b
    then 2
    else if encoding == int_24b
    then 3
    else if encoding == int_32b
    then 4
    else if encoding == int_64b
    then 8
    else 0

-- zipEncodeLength: the number of bytes, for p of NULL, and the bytes written.
unfoldable pub encode_length_size : ℕ → ℕ → ℕ
encode_length_size encoding rawlen =
    if is_str encoding
    then (if leb rawlen 0x3f then 1 else if leb rawlen 0x3fff then 2 else 5)
    else 1

unfoldable pub encode_length : ℕ → ℕ → Bytes
encode_length encoding rawlen =
    if is_str encoding
    then (if leb rawlen 0x3f
        then (str_06b + rawlen) ∷ []
        else if leb rawlen 0x3fff
        then (str_14b + rawlen / 2 ^ 8 % 64) ∷ rawlen % 256 ∷ []
        else str_32b ∷ big_endian rawlen)
    else encoding ∷ []

-- ZIP_DECODE_LENGTH: the encoding, the bytes that the length takes, and the length.
unfoldable pub decode_length : Bytes → Option (ℕ × ℕ × ℕ)
unfolding int_size
decode_length [] = none
decode_length (b ∷ s) =
    if ltb b 192
    then (if b / 64 * 64 == str_06b
        then some (str_06b, 1, b % 64)
        else if b / 64 * 64 == str_14b
        then elim s [ [] ↦ none | c ∷ _ ↦ some (str_14b, 2, b % 64 * 256 + c) ]
        else elim s [
          | c₃ ∷ c₂ ∷ c₁ ∷ c₀ ∷ _ ↦ some (str_32b, 5, c₃ * 2 ^ 24 + c₂ * 2 ^ 16 + c₁ * 2 ^ 8 + c₀)
          | _ ↦ none
        ])
    else some (b, 1, int_size b)

-- zipPrevEncodeLength: the number of bytes, for p of NULL, and the bytes written.
unfoldable pub prev_encode_length_size : ℕ → ℕ
prev_encode_length_size len = if ltb len big_len then 1 else 5

-- zipPrevEncodeLengthForceLarge
unfoldable pub prev_encode_length_force_large : ℕ → Bytes
prev_encode_length_force_large len = big_len ∷ little_endian 4 len

unfoldable pub prev_encode_length : ℕ → Bytes
unfolding prev_encode_length_force_large
prev_encode_length len = if ltb len big_len then len ∷ [] else prev_encode_length_force_large len

-- ZIP_DECODE_PREVLENSIZE
unfoldable pub decode_prevlensize : Bytes → Option ℕ
decode_prevlensize [] = none
decode_prevlensize (b ∷ s) = some (if ltb b big_len then 1 else 5)

-- ZIP_DECODE_PREVLEN: the size of the field, and the length in it.
unfoldable pub decode_prevlen : Bytes → Option (ℕ × ℕ)
decode_prevlen [] = none
decode_prevlen (b ∷ s) =
    if ltb b big_len
    then some (1, b)
    else elim (read_little 4 s) [ none ↦ none | some (n, _) ↦ some (5, n) ]

-- zipPrevLenByteDiff
unfoldable pub prev_len_byte_diff : Bytes → ℕ → Option ℤ
unfolding prev_encode_length_size decode_prevlensize
prev_len_byte_diff p len = do
  prevlensize ← decode_prevlensize p
  some (sub_ℕ (prev_encode_length_size len) prevlensize)

-- zipRawEntryLength
unfoldable pub raw_entry_length : Bytes → Option ℕ
unfolding decode_prevlensize decode_length
raw_entry_length p = do
  prevlensize ← decode_prevlensize p
  (encoding, lensize, len) ← decode_length (drop prevlensize p)
  some (uint (prevlensize + lensize + len))

-- The smallest encoding for a value, of zipTryEncoding.
unfoldable pub integer_encoding : ℤ → ℕ
integer_encoding (pos n) =
    if leb n 12
    then imm_min + n
    else if ltb n (2 ^ 7)
    then int_8b
    else if ltb n (2 ^ 15)
    then int_16b
    else if ltb n (2 ^ 23)
    then int_24b
    else if ltb n (2 ^ 31)
    then int_32b
    else int_64b
integer_encoding (negsuc n) =
    if ltb n (2 ^ 7)
    then int_8b
    else if ltb n (2 ^ 15)
    then int_16b
    else if ltb n (2 ^ 23)
    then int_24b
    else if ltb n (2 ^ 31)
    then int_32b
    else int_64b

-- zipTryEncoding: the value and its encoding, where the text is one of a long long.
unfoldable pub try_encoding : Bytes → Option (ℤ × ℕ)
unfolding integer_encoding
try_encoding s =
    if leb 32 (length s) || length s == 0
    then none
    else elim (string2ll s) [ none ↦ none | some value ↦ some (value, integer_encoding value) ]

-- An encoding of a value in the byte itself.
abbrev pub is_immediate : ℕ → Bool
is_immediate encoding = leb imm_min encoding && leb encoding imm_max

-- zipSaveInteger: the bytes written. Of 24 bits the value is shifted into the upper three bytes of
-- an int32_t, and the lowest byte is left out.
unfoldable pub save_integer : ℤ → ℕ → Option Bytes
save_integer value encoding =
    if encoding == int_8b
    then some (little_endian 1 (to_bits 1 value))
    else if encoding == int_16b
    then some (little_endian 2 (to_bits 2 value))
    else if encoding == int_24b
    then some (drop 1 (little_endian 4 (to_bits 8 value * 2 ^ 8 % 2 ^ 32)))
    else if encoding == int_32b
    then some (little_endian 4 (to_bits 4 value))
    else if encoding == int_64b
    then some (little_endian 8 (to_bits 8 value))
    else if is_immediate encoding
    then some []
    else none

-- `>> 8` of a signed integer.
unfoldable pub shift_8 : ℤ → ℤ
shift_8 (pos n) = pos (n / 2 ^ 8)
shift_8 (negsuc n) = negsuc (n / 2 ^ 8)

-- A signed integer of `w` bytes.
unfoldable pub read_signed : ℕ → Bytes → Option ℤ
read_signed w p = do (n, rest) ← read_little w p; some (of_bits w n)

-- zipLoadInteger
unfoldable pub load_integer : Bytes → ℕ → Option ℤ
unfolding read_signed shift_8
load_integer p encoding =
    if encoding == int_8b
    then read_signed 1 p
    else if encoding == int_16b
    then read_signed 2 p
    else if encoding == int_32b
    then read_signed 4 p
    else if encoding == int_24b
    then (do i32 ← read_signed 4 (0 ∷ p); some (shift_8 i32))
    else if encoding == int_64b
    then read_signed 8 p
    else if is_immediate encoding
    then some (pos (encoding % 16 - 1))
    else none

-- zlentry, without the pointer to the entry.
pub record Zlentry : Type 0 where
  pub prevrawlensize : ℕ
  pub prevrawlen : ℕ
  pub lensize : ℕ
  pub len : ℕ
  pub headersize : ℕ
  pub encoding : ℕ

-- zipEntry
unfoldable pub entry : Bytes → Option Zlentry
unfolding decode_prevlen decode_length
entry p = do
  (prevrawlensize, prevrawlen) ← decode_prevlen p
  (encoding, lensize, len) ← decode_length (drop prevrawlensize p)
  some (record {
    prevrawlensize = prevrawlensize;
    prevrawlen = prevrawlen;
    lensize = lensize;
    len = len;
    headersize = prevrawlensize + lensize;
    encoding = encoding;
  })
