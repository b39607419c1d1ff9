-- ===== src/Rdb/Integer.antt =====
-- `rdbEncodeInteger` and what reads its bytes, of rdb.c.
use project.Prelude.{
  ℕ, zero, suc, ◌*◌, ◌/◌, ◌^◌, ◌<◌, ◌≡◌, refl, false, some, ◌++◌, ltb, ◌==◌, if◌then◌else◌, arith,
  ap, Bool-cases, inl, inr,
}
use project.Prelude.Int.{ℤ, pos, negsuc}
use project.Intset.Bytes.{to_bits, of_bits-to_bits, to_bits-lt, InRange}
use project.Rdb.{
  Bytes, enc_int8, enc_int16, enc_int32, encoded, load_len, out_of, little_endian, encode_integer,
  read_little, load_integer,
}

pub read_little-little_endian :
    (w n : ℕ) (rest : Bytes)
    → n < 256 ^ w
    → read_little w (little_endian w n ++ rest) ≡ some (n, rest)
unfolding read_little little_endian
read_little-little_endian zero n rest h = ap (λ k. some (k, rest)) (omega arith)
read_little-little_endian (suc w) n rest h =
    let ih = read_little-little_endian w (n / 256) rest (omega arith) in
    rw (ih, read_little) (ap (λ k. some (k, rest)) (omega arith))

load_integer_run :
    (enctype w : ℕ) (v : ℤ) (rest : Bytes)
    → ltb enc_int32 enctype ≡ false
    → (if enctype == enc_int8 then 1 else if enctype == enc_int16 then 2 else 4) ≡ w
    → 0 < w
    → InRange w v
    → load_integer enctype (little_endian w (to_bits w v) ++ rest) ≡ some (v, rest)
unfolding load_integer
load_integer_run enctype w v rest known e some_byte r =
    let back = read_little-little_endian w (to_bits w v) rest (to_bits-lt w v r) in
    rw (known, e, back, load_integer, e)
      (ap (λ x. some (x, rest)) (of_bits-to_bits w v some_byte r))

-- The test of an encoding, and the range of its width.
in_range : (m w : ℕ) (v : ℤ) → 0 < m → 2 * m ≡ 256 ^ w → out_of m v ≡ false → InRange w v
in_range m w (pos n) h e t = ground arith
in_range m w (negsuc n) h e t = ground arith

-- An integer that rdbEncodeInteger encodes is read back: rdbLoadLen finds an encoding in its first
-- byte, and rdbLoadIntegerObject the integer in the others, whatever follows them.
pub load_integer-encode_integer :
    (v : ℤ) (rest : Bytes)
    → out_of (2 ^ 31) v ≡ false
    → (enctype : ℕ) × (s : Bytes) × (load_len (encode_integer v ++ rest) ≡ encoded enctype s)
      × (load_integer enctype s ≡ some (v, rest))
unfolding encode_integer load_len
load_integer-encode_integer v rest fits = elim (Bool-cases (out_of (2 ^ 15) v)) [
  | inl wide ↦ (
    enc_int32,
    little_endian 4 (to_bits 4 v) ++ rest,
    rw (fits, wide) refl,
    load_integer_run enc_int32 4 v rest refl refl (omega arith)
        (in_range (2 ^ 31) 4 v (omega arith) refl fits),
  )
  | inr narrow ↦ elim (Bool-cases (out_of (2 ^ 7) v)) [
    | inl middle ↦ (
      enc_int16,
      little_endian 2 (to_bits 2 v) ++ rest,
      rw (fits, narrow, middle) refl,
      load_integer_run enc_int16 2 v rest refl refl (omega arith)
          (in_range (2 ^ 15) 2 v (omega arith) refl narrow),
    )
    | inr small ↦ (
      enc_int8,
      little_endian 1 (to_bits 1 v) ++ rest,
      rw (fits, narrow, small) refl,
      load_integer_run enc_int8 1 v rest refl refl (omega arith)
          (in_range (2 ^ 7) 1 v (omega arith) refl small),
    )
  ]
]
