-- ===== src/Ziplist/Format.antt =====
-- The marks and encodings of ziplist.c.
use project.Prelude.{ℕ, ◌*◌, ◌/◌, Bool, ltb}

-- ZIP_END and ZIP_BIGLEN.
abbrev pub zip_end : ℕ
zip_end = 255

abbrev pub big_len : ℕ
big_len = 254

-- ZIP_STR_06B and so on.
abbrev pub str_06b : ℕ
str_06b = 0

abbrev pub str_14b : ℕ
str_14b = 64

abbrev pub str_32b : ℕ
str_32b = 128

abbrev pub int_16b : ℕ
int_16b = 192

abbrev pub int_32b : ℕ
int_32b = 208

abbrev pub int_64b : ℕ
int_64b = 224

abbrev pub int_24b : ℕ
int_24b = 240

abbrev pub int_8b : ℕ
int_8b = 254

-- ZIP_INT_IMM_MIN and ZIP_INT_IMM_MAX: a value from 0 to 12 in the encoding itself.
abbrev pub imm_min : ℕ
imm_min = 241

abbrev pub imm_max : ℕ
imm_max = 253

-- ZIP_IS_STR, with the two highest bits of a byte.
abbrev pub is_str : ℕ → Bool
is_str encoding = ltb (encoding / 64 * 64) 192
