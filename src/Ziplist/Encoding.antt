-- ===== src/Ziplist/Encoding.antt =====
-- Integers of ziplist.c: zipTryEncoding, zipSaveInteger and zipLoadInteger.
use project.Prelude.{
  ℕ, zero, suc, ◌+◌, ◌*◌, ◌/◌, ◌%◌, ◌^◌, ◌≤◌, ◌<◌, ◌≡◌, refl, some, [], ◌∷◌, ◌++◌, ltb, leb, length,
  drop, arith, ap, Bool-cases, inl, inr,
}
use project.Prelude.Int.{ℤ, pos, negsuc}
use project.Prelude.Options.{◌>>=◌}
use project.Intset.Bytes.{to_bits, of_bits, of_bits-to_bits, to_bits-lt, InRange}
use project.Rdb.{Bytes, little_endian, read_little}
use project.Rdb.Integer.{read_little-little_endian}
use project.Ziplist.{
  int_8b, int_16b, int_24b, int_32b, int_64b, imm_min, int_size, integer_encoding, save_integer,
  read_signed, shift_8, load_integer,
}

pub length-little_endian : (w n : ℕ) → length (little_endian w n) ≡ w
unfolding little_endian
length-little_endian zero n = refl
length-little_endian (suc w) n = ap suc (length-little_endian w (n / 256))

read_signed-little_endian :
    (w : ℕ) (v : ℤ) (rest : Bytes)
    → 0 < w
    → InRange w v
    → read_signed w (little_endian w (to_bits w v) ++ rest) ≡ some v
unfolding read_signed
read_signed-little_endian w v rest some_byte r =
    rw (read_little-little_endian w (to_bits w v) rest (to_bits-lt w v r), ◌>>=◌)
      (ap some (of_bits-to_bits w v some_byte r))

-- The value is saved in the encoding, in as many bytes as the encoding says, and read back.
pub record IsSaved (v : ℤ) (encoding : ℕ) : Type 0 where
  pub bytes : Bytes
  pub saved : save_integer v encoding ≡ some bytes
  pub size : length bytes ≡ int_size encoding
  pub loads : (rest : Bytes) → load_integer (bytes ++ rest) encoding ≡ some v

int_8b-IsSaved : (v : ℤ) → InRange 1 v → IsSaved v int_8b
unfolding save_integer load_integer int_size
int_8b-IsSaved v r = record {
  bytes = little_endian 1 (to_bits 1 v);
  saved = refl;
  size = length-little_endian 1 (to_bits 1 v);
  loads = λ rest. read_signed-little_endian 1 v rest (omega arith) r;
}

int_16b-IsSaved : (v : ℤ) → InRange 2 v → IsSaved v int_16b
unfolding save_integer load_integer int_size
int_16b-IsSaved v r = record {
  bytes = little_endian 2 (to_bits 2 v);
  saved = refl;
  size = length-little_endian 2 (to_bits 2 v);
  loads = λ rest. read_signed-little_endian 2 v rest (omega arith) r;
}

int_32b-IsSaved : (v : ℤ) → InRange 4 v → IsSaved v int_32b
unfolding save_integer load_integer int_size
int_32b-IsSaved v r = record {
  bytes = little_endian 4 (to_bits 4 v);
  saved = refl;
  size = length-little_endian 4 (to_bits 4 v);
  loads = λ rest. read_signed-little_endian 4 v rest (omega arith) r;
}

int_64b-IsSaved : (v : ℤ) → InRange 8 v → IsSaved v int_64b
unfolding save_integer load_integer int_size
int_64b-IsSaved v r = record {
  bytes = little_endian 8 (to_bits 8 v);
  saved = refl;
  size = length-little_endian 8 (to_bits 8 v);
  loads = λ rest. read_signed-little_endian 8 v rest (omega arith) r;
}

-- The upper three bytes of an int32_t hold a value of 24 bits, which the shift brings back.
shifted : (v : ℤ) → InRange 3 v → shift_8 (of_bits 4 (to_bits 8 v * 2 ^ 8 % 2 ^ 32)) ≡ v
unfolding shift_8 of_bits to_bits
shifted (pos n) r = ground arith
shifted (negsuc n) r = ground arith

read_upper :
    (x : ℕ) (rest : Bytes)
    → x < 2 ^ 32
    → x % 256 ≡ 0
    → read_signed 4 (0 ∷ (drop 1 (little_endian 4 x) ++ rest)) ≡ some (of_bits 4 x)
unfolding little_endian read_signed
read_upper x rest small low =
    let back = read_little-little_endian 4 x rest small in
    let back' : read_little 4 (0 ∷ (drop 1 (little_endian 4 x) ++ rest)) ≡ some (x, rest) =
      rw (low) at back in
    rw (back', ◌>>=◌)

upper_size : (x : ℕ) → length (drop 1 (little_endian 4 x)) ≡ 3
unfolding little_endian
upper_size x = refl

int_24b-IsSaved : (v : ℤ) → InRange 3 v → IsSaved v int_24b
unfolding save_integer load_integer int_size
int_24b-IsSaved v r =
    let x = to_bits 8 v * 2 ^ 8 % 2 ^ 32 in
    record {
      bytes = drop 1 (little_endian 4 x);
      saved = refl;
      size = upper_size x;
      loads =
          λ rest. rw (read_upper x rest (omega arith) (omega arith), ◌>>=◌) (ap some (shifted v r));
    }

immediate_step : (e n : ℕ) → e ≡ imm_min + n → n ≤ 12 → IsSaved (pos n) e
unfolding save_integer load_integer int_size
immediate_step e n eq small = record {
  bytes = [];
  saved = ground arith;
  size = ground arith;
  loads = λ rest. ground arith;
}

-- Every 64-bit value is saved in the encoding that is picked for it, and read back.
pub integer_encoding-IsSaved : (v : ℤ) → InRange 8 v → IsSaved v (integer_encoding v)
unfolding integer_encoding
integer_encoding-IsSaved (pos n) r = elim (Bool-cases (leb n 12)) [
  | inl tiny ↦ rw tiny (immediate_step (imm_min + n) n refl (ground arith))
  | inr n₀ ↦ elim (Bool-cases (ltb n (2 ^ 7))) [
    | inl small ↦ rw (n₀, small) (int_8b-IsSaved (pos n) (ground arith))
    | inr n₁ ↦ elim (Bool-cases (ltb n (2 ^ 15))) [
      | inl small ↦ rw (n₀, n₁, small) (int_16b-IsSaved (pos n) (ground arith))
      | inr n₂ ↦ elim (Bool-cases (ltb n (2 ^ 23))) [
        | inl small ↦ rw (n₀, n₁, n₂, small) (int_24b-IsSaved (pos n) (ground arith))
        | inr n₃ ↦ elim (Bool-cases (ltb n (2 ^ 31))) [
          | inl small ↦ rw (n₀, n₁, n₂, n₃, small) (int_32b-IsSaved (pos n) (ground arith))
          | inr n₄ ↦ rw (n₀, n₁, n₂, n₃, n₄) (int_64b-IsSaved (pos n) r)
        ]
      ]
    ]
  ]
]
integer_encoding-IsSaved (negsuc n) r = elim (Bool-cases (ltb n (2 ^ 7))) [
  | inl small ↦ rw small (int_8b-IsSaved (negsuc n) (ground arith))
  | inr n₁ ↦ elim (Bool-cases (ltb n (2 ^ 15))) [
    | inl small ↦ rw (n₁, small) (int_16b-IsSaved (negsuc n) (ground arith))
    | inr n₂ ↦ elim (Bool-cases (ltb n (2 ^ 23))) [
      | inl small ↦ rw (n₁, n₂, small) (int_24b-IsSaved (negsuc n) (ground arith))
      | inr n₃ ↦ elim (Bool-cases (ltb n (2 ^ 31))) [
        | inl small ↦ rw (n₁, n₂, n₃, small) (int_32b-IsSaved (negsuc n) (ground arith))
        | inr n₄ ↦ rw (n₁, n₂, n₃, n₄) (int_64b-IsSaved (negsuc n) r)
      ]
    ]
  ]
]
