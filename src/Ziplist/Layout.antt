-- ===== src/Ziplist/Layout.antt =====
-- What the bytes of a ziplist stand for: nodes with a text and the form of the field in front, which
-- may take five bytes for a length that has room in one.
use mathlib.Core.List.{append_assoc}
use project.Prelude.{
  ℕ, ◌+◌, ◌^◌, ◌≤◌, ◌<◌, ◌≡◌, refl, ◌∙◌, ap, sym, Bool, true, false, some, [], ◌∷◌, ◌++◌, length,
  length-append, drop, ltb, ◌==◌, if◌then◌else◌, arith, Bool-cases, Option-cases, inl, inr,
}
use project.Prelude.Options.{◌>>=◌}
use project.Rdb.{Bytes, little_endian}
use project.Rdb.Integer.{read_little-little_endian}
use project.Ziplist.{
  zip_end, big_len, uint, prev_encode_length_force_large, prev_encode_length, decode_prevlensize,
  decode_prevlen, raw_entry_length, try_encoding, Zlentry, entry,
}
use project.Ziplist.Visit.{Value, read_payload, parts}
use project.Ziplist.Encoding.{length-little_endian}
use project.Ziplist.Texts.{payload_of, head_of, meaning_of, IsRead-try_encoding, try_encoding_short}
use project.Ziplist.Memory.{drop_at}

-- The field for the length of the entry in front.
unfoldable pub prev_field : Bool → ℕ → Bytes
prev_field large prev =
    if large then prev_encode_length_force_large prev else prev_encode_length prev

-- The bytes of a node behind a given length.
pub record Node : Type 0 where
  pub large : Bool
  pub text : Bytes

unfoldable pub head : Bytes → Bytes
head s = head_of (try_encoding s) s

unfoldable pub payload : Bytes → Bytes
payload s = payload_of (try_encoding s) s

unfoldable pub meaning : Bytes → Value
meaning s = meaning_of (try_encoding s) s

unfoldable pub node_size : ℕ → Node → ℕ
node_size prev n = length (prev_field n.large prev) + length (head n.text) + length (payload n.text)

unfoldable pub node_bytes : ℕ → Node → Bytes
node_bytes prev n = prev_field n.large prev ++ (head n.text ++ payload n.text)

-- What zipEntry reads of a node.
pub record Reads (prev : ℕ) (n : Node) (rest : Bytes) : Type 0 where
  pub e : Zlentry
  pub parsed : entry (node_bytes prev n ++ rest) ≡ some e
  pub prevrawlen : e.prevrawlen ≡ prev
  pub prevrawlensize : e.prevrawlensize ≡ length (prev_field n.large prev)
  pub total : e.headersize + e.len ≡ node_size prev n
  pub raw : raw_entry_length (node_bytes prev n ++ rest) ≡ some (uint (node_size prev n))
  pub value :
      read_payload e.encoding e.len (drop e.headersize (node_bytes prev n ++ rest))
      ≡ some (meaning n.text)
  pub partial : parts (node_bytes prev n ++ rest) ≡ some (e.encoding, e.len, e.headersize)

abbrev PrevRead : Bytes → ℕ → Bytes → Type 0
PrevRead f prev rest =
    (decode_prevlen (f ++ rest) ≡ some (length f, prev))
    × (decode_prevlensize (f ++ rest) ≡ some (length f))

force_large_read :
    (prev : ℕ) (rest : Bytes)
    → prev < 2 ^ 32
    → PrevRead (prev_encode_length_force_large prev) prev rest
unfolding prev_encode_length_force_large decode_prevlen decode_prevlensize
force_large_read prev rest small =
    rw (read_little-little_endian 4 prev rest small, length-little_endian 4 prev) (refl, refl)

pub prev_field_read :
    (large : Bool) (prev : ℕ) (rest : Bytes)
    → prev < 2 ^ 32
    → PrevRead (prev_field large prev) prev rest
unfolding prev_field prev_encode_length decode_prevlen decode_prevlensize
prev_field_read true prev rest small = force_large_read prev rest small
prev_field_read false prev rest small = elim (Bool-cases (ltb prev big_len)) [
  | inl short ↦ rw (short, decode_prevlen, decode_prevlensize, short) (refl, refl)
  | inr long ↦ rw long (force_large_read prev rest small)
]

pub node_reads :
    (prev : ℕ) (n : Node) (rest : Bytes)
    → prev < 2 ^ 32
    → length n.text < 2 ^ 32
    → Reads prev n rest
unfolding entry node_bytes node_size raw_entry_length parts meaning head payload
node_reads prev n rest small fits =
    let s = n.text in
    let o = try_encoding s in
    let r = IsRead-try_encoding o s refl fits in
    let f = prev_field n.large prev in
    let after = payload_of o s ++ rest in
    let (field, size) = prev_field_read n.large prev (head_of o s ++ after) small in
    let shape : (f ++ (head_of o s ++ payload_of o s)) ++ rest ≡ f ++ (head_of o s ++ after) =
      append_assoc f (head_of o s ++ payload_of o s) rest
      ∙ ap (λ x. f ++ x) (append_assoc (head_of o s) (payload_of o s) rest) in
    let at : drop (length f) (f ++ (head_of o s ++ after)) ≡ head_of o s ++ after =
      drop_at f (head_of o s ++ after) (length f) refl in
    let behind : drop (length f + length (head_of o s)) (f ++ (head_of o s ++ after)) ≡ after =
      ap (drop (length f + length (head_of o s))) (sym (append_assoc f (head_of o s) after))
      ∙ drop_at (f ++ head_of o s) after (length f + length (head_of o s))
          (sym (length-append f (head_of o s))) in
    record {
      e = record {
        prevrawlensize = length f;
        prevrawlen = prev;
        lensize = length (head_of o s);
        len = length (payload_of o s);
        headersize = length f + length (head_of o s);
        encoding = r.code;
      };
      parsed = rw (shape, field, ◌>>=◌, at, r.decoded after, ◌>>=◌) refl;
      prevrawlen = refl;
      prevrawlensize = refl;
      total = refl;
      raw = rw (shape, size, ◌>>=◌, at, r.decoded after, ◌>>=◌) refl;
      value = rw (shape, behind) (r.reads rest);
      partial = rw (shape, size, ◌>>=◌, at, r.decoded after, ◌>>=◌) refl;
    }

-- A text is hardly longer than its payload.
pub length-le-payload : (s : Bytes) → length s ≤ length (payload s) + 31
unfolding payload
length-le-payload s = elim (Option-cases (try_encoding s)) [
  | inl plain ↦ rw plain (omega arith)
  | inr (c, int) ↦ let short = try_encoding_short s c int in omega arith
]

field_first :
    (large : Bool) (prev : ℕ)
    → (b : ℕ) × (x : Bytes) × (prev_field large prev ≡ b ∷ x) × ((b == zip_end) ≡ false)
unfolding prev_field prev_encode_length prev_encode_length_force_large
field_first true prev = (big_len, little_endian 4 prev, refl, refl)
field_first false prev = elim (Bool-cases (ltb prev big_len)) [
  | inl short ↦ (prev, [], rw short refl, ground arith)
  | inr long ↦ (big_len, little_endian 4 prev, rw long refl, refl)
]

-- The first byte of a node is not the end marker.
pub node_first :
    (prev : ℕ) (n : Node) (rest : Bytes)
    → (b : ℕ) × (x : Bytes) × (node_bytes prev n ++ rest ≡ b ∷ x) × ((b == zip_end) ≡ false)
unfolding node_bytes
node_first prev n rest =
    let (b, x, e, inner) = field_first n.large prev in
    (
      b,
      (x ++ (head n.text ++ payload n.text)) ++ rest,
      ap (λ f. (f ++ (head n.text ++ payload n.text)) ++ rest) e,
      inner,
    )

pub length-node_bytes : (prev : ℕ) (n : Node) → length (node_bytes prev n) ≡ node_size prev n
unfolding node_bytes node_size
length-node_bytes prev n = omega (
  arith,
  length-append (prev_field n.large prev) (head n.text ++ payload n.text),
  length-append (head n.text) (payload n.text),
)
