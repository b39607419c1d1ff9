-- ===== src/Ziplist/Texts.antt =====
-- The bytes that are written for a text, and what is read of them.
use project.Prelude.{
  ℕ, ◌+◌, ◌*◌, ◌/◌, ◌%◌, ◌^◌, ◌≤◌, ◌<◌, ◌≡◌, refl, ◌∙◌, subst, ap, sym, true, false, Option, none,
  some, [], ◌++◌, length, length-append, ltb, leb, if◌then◌else◌, arith, Bool-cases, inl, inr,
}
use project.Prelude.Int.{ℤ, pos, negsuc}
use project.Prelude.Options.{◌>>=◌}
use project.Intset.Bytes.{InRange}
use project.Rdb.{Bytes}
use project.Util.{string2ll}
use project.Util.Decimal.{string2ll-IsLongLong, IsLongLong}
use project.Ziplist.{
  is_str, encode_length_size, encode_length, decode_length, integer_encoding, try_encoding,
  save_integer,
}
use project.Ziplist.Blob.{choice, payload_size}
use project.Ziplist.Visit.{Value, text, number, read_payload}
use project.Ziplist.Encoding.{IsSaved, integer_encoding-IsSaved}
use project.Ziplist.Memory.{take_at}

-- The bytes of a text behind the encoding, given what zipTryEncoding finds, the bytes of the
-- encoding, and what the text stands for.
abbrev pub payload_of : Option (ℤ × ℕ) → Bytes → Bytes
payload_of none s = s
payload_of (some (v, e)) s = elim (save_integer v e) [ none ↦ [] | some b ↦ b ]

abbrev pub head_of : Option (ℤ × ℕ) → Bytes → Bytes
head_of o s = encode_length (choice o).1 (length s)

abbrev pub meaning_of : Option (ℤ × ℕ) → Bytes → Value
meaning_of none s = text s
meaning_of (some (v, e)) s = number v

integer_encoding_bounds : (v : ℤ) → (192 ≤ integer_encoding v) × (integer_encoding v ≤ 254)
unfolding integer_encoding
integer_encoding_bounds (pos n) = ground arith
integer_encoding_bounds (negsuc n) = ground arith

-- An integer of a text.
pub try_encoding-some :
    (s : Bytes) (v : ℤ) (e : ℕ)
    → try_encoding s ≡ some (v, e)
    → (string2ll s ≡ some v) × (e ≡ integer_encoding v)
unfolding try_encoding
try_encoding-some s v e h = ground arith

pub try_encoding_short : (s : Bytes) (c : ℤ × ℕ) → try_encoding s ≡ some c → length s < 32
unfolding try_encoding
try_encoding_short s c h = ground arith

IsLongLong-InRange : (v : ℤ) → IsLongLong v → InRange 8 v
IsLongLong-InRange (pos n) r = omega arith
IsLongLong-InRange (negsuc n) r = omega arith

decode_text :
    (n : ℕ)
    → n < 2 ^ 32
    → (code : ℕ) × (is_str code ≡ true)
      × ((rest : Bytes)
          → decode_length (encode_length 0 n ++ rest) ≡ some (code, length (encode_length 0 n), n))
unfolding decode_length encode_length
decode_text n h = elim (Bool-cases (leb n 0x3f)) [
  | inl short ↦
      let q : (0 + n) / 64 ≡ 0 = ground arith in
      let m : (0 + n) % 64 ≡ n = ground arith in (0, refl, λ rest. rw short (ground (arith, q, m)))
  | inr long ↦ elim (Bool-cases (leb n 0x3fff)) [
    | inl middle ↦
        let q : (64 + n / 2 ^ 8 % 64) / 64 ≡ 1 = ground arith in
        let m : (64 + n / 2 ^ 8 % 64) % 64 * 256 + n % 256 ≡ n = ground arith in
        (64, refl, λ rest. rw (long, middle) (ground (arith, q, m)))
    | inr longer ↦ (128, refl, λ rest. rw (long, longer) (ap (λ k. some (128, 5, k)) (omega arith)))
  ]
]

-- A text, what is written for it and what is read of the bytes.
pub record IsRead (o : Option (ℤ × ℕ)) (s : Bytes) : Type 0 where
  pub code : ℕ
  pub decoded :
      (rest : Bytes)
      → decode_length (head_of o s ++ rest)
        ≡ some (code, length (head_of o s), length (payload_of o s))
  pub reads :
      (rest : Bytes)
      → read_payload code (length (payload_of o s)) (payload_of o s ++ rest) ≡ some (meaning_of o s)
  pub head_size : encode_length_size (choice o).1 (length s) ≡ length (head_of o s)
  pub sized : payload_size o s ≡ length (payload_of o s)
  pub written :
      (if is_str (choice o).1 then some s else save_integer (choice o).0 (choice o).1)
      ≡ some (payload_of o s)

encode_length_sized : (e n : ℕ) → encode_length_size e n ≡ length (encode_length e n)
unfolding encode_length_size encode_length
encode_length_sized e n = ground arith

IsRead-some : (s : Bytes) (v : ℤ) (e : ℕ) → IsSaved v e → 192 ≤ e → e ≤ 254 → IsRead (some (v, e)) s
unfolding read_payload encode_length decode_length
IsRead-some s v e sv lo hi =
    let int : is_str e ≡ false = ground arith in
    let high : ltb e 192 ≡ false = ground arith in
    let kept : payload_of (some (v, e)) s ≡ sv.bytes = rw (sv.saved, payload_of) in
    record {
      code = e;
      decoded = λ rest. rw (int, kept, high) (rw sv.size);
      reads = λ rest. rw (int, kept, sv.loads rest, ◌>>=◌);
      head_size = encode_length_sized e (length s);
      sized = rw kept (sym sv.size);
      written = rw int (sv.saved ∙ ap some (sym kept));
    }

pub IsRead-try_encoding :
    (o : Option (ℤ × ℕ)) (s : Bytes) → try_encoding s ≡ o → length s < 2 ^ 32 → IsRead o s
unfolding read_payload
IsRead-try_encoding none s h small =
    let (code, is, e) = decode_text (length s) small in
    record {
      code = code;
      decoded = e;
      reads = λ rest. ground (arith, is, length-append s rest, take_at s rest (length s) refl);
      head_size = encode_length_sized 0 (length s);
      sized = refl;
      written = refl;
    }
IsRead-try_encoding (some (v, e)) s h small =
    let (parsed, eq) = try_encoding-some s v e h in
    let saved =
      integer_encoding-IsSaved v (IsLongLong-InRange v (string2ll-IsLongLong s v parsed)) in
    let (lo, hi) = integer_encoding_bounds v in
    IsRead-some s v e (subst (IsSaved v) (sym eq) saved) (omega arith) (omega arith)
