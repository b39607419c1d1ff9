-- ===== src/Ziplist/Blob.antt =====
-- The operations of ziplist.c that change a ziplist. A ziplist is the list of its allocated bytes, a
-- pointer into it an offset; an access outside is a fault, `none`. What zrealloc leaves in new bytes
-- is the argument `junk`.
use project.Prelude.{
  ℕ, zero, suc, ◌+◌, ◌-◌, ◌%◌, ◌^◌, Option, none, some, [], ◌∷◌, ◌++◌, ltb, leb, ◌==◌,
  if◌then◌else◌, length, take, drop, get_elem?,
}
use project.Prelude.Int.{ℤ, pos, pos_part, neg_part}
use project.Prelude.Options.{◌>>=◌}
use project.Rdb.{Bytes, little_endian, read_little}
use project.Sds.{memcpy, realloc}
use project.Ziplist.{
  zip_end, uint, is_str, int_size, encode_length_size, encode_length, prev_encode_length_size,
  prev_encode_length, prev_encode_length_force_large, prev_len_byte_diff, raw_entry_length,
  try_encoding, save_integer, Zlentry, entry,
}

-- An expression of type size_t, with what is subtracted.
abbrev pub size_sub : ℕ → ℕ → ℕ
size_sub a b = (a + 2 ^ 64 - b) % 2 ^ 64

-- memmove in one buffer.
unfoldable pub memmove : Bytes → ℕ → ℕ → ℕ → Option Bytes
memmove zl to from n =
    if leb (from + n) (length zl) then memcpy zl to (take n (drop from zl)) else none

-- ZIPLIST_HEADER_SIZE
abbrev pub header_size : ℕ
header_size = 10

-- ZIPLIST_BYTES, ZIPLIST_TAIL_OFFSET and ZIPLIST_LENGTH, read and written.
abbrev pub field : ℕ → ℕ → Bytes → Option ℕ
field w at zl = do (n, rest) ← read_little w (drop at zl); some n

unfoldable pub ziplist_bytes : Bytes → Option ℕ
ziplist_bytes zl = field 4 0 zl

unfoldable pub tail_offset : Bytes → Option ℕ
tail_offset zl = field 4 4 zl

unfoldable pub ziplist_length : Bytes → Option ℕ
ziplist_length zl = field 2 8 zl

unfoldable pub put_bytes : ℕ → Bytes → Option Bytes
put_bytes n zl = memcpy zl 0 (little_endian 4 n)

unfoldable pub put_tail_offset : ℕ → Bytes → Option Bytes
put_tail_offset n zl = memcpy zl 4 (little_endian 4 n)

unfoldable pub put_length : ℕ → Bytes → Option Bytes
put_length n zl = memcpy zl 8 (little_endian 2 n)

-- ZIPLIST_INCR_LENGTH; an increment below 0 is given modulo 2 ^ 32.
unfoldable pub incr_length : Bytes → ℕ → Option Bytes
incr_length zl incr = do
  len ← ziplist_length zl
  if ltb len 65535 then put_length (len + incr) zl else some zl

-- ziplistNew, whose bytes are all written.
unfoldable pub new : Bytes
new = little_endian 4 11 ++ (little_endian 4 header_size ++ (little_endian 2 0 ++ zip_end ∷ []))

-- What is to be written, given what zipTryEncoding found: the value and the encoding, which stay as
-- they were set at first where the text is not an integer.
abbrev pub choice : Option (ℤ × ℕ) → ℤ × ℕ
choice none = (pos 123456789, 0)
choice (some chosen) = chosen

-- The space for the payload.
abbrev pub payload_size : Option (ℤ × ℕ) → Bytes → ℕ
payload_size none s = length s
payload_size (some (value, encoding)) s = int_size encoding

-- The space for an entry, `reqlen`.
unfoldable pub required : ℕ → Bytes → ℕ
required prevlen s =
    payload_size (try_encoding s) s
    + prev_encode_length_size prevlen
    + encode_length_size (choice (try_encoding s)).1 (length s)

-- What a round of the loop of __ziplistCascadeUpdate leaves: the ziplist, or also the cursor and
-- the size to go on with.
pub data Round : Type 0 where
  done : Bytes → Round
  again : Bytes → ℕ → ℕ → Round

-- __ziplistInsert where there is an entry at `p`, up to the cascade.
unfoldable pub insert_before : Bytes → ℕ → ℕ → ℕ → ℤ → Option Bytes
insert_before zl p curlen reqlen nextdiff = do
  let from = p + neg_part nextdiff - pos_part nextdiff
  let count = size_sub (curlen + pos_part nextdiff) (p + 1 + neg_part nextdiff)
  zl₁ ← memmove zl (p + reqlen) from count
  zl₂ ← memcpy zl₁ (p + reqlen) (prev_encode_length (uint reqlen))
  t ← tail_offset zl₂
  zl₃ ← put_tail_offset (t + reqlen) zl₂
  tail ← entry (drop (p + reqlen) zl₃)
  b ← get_elem? zl₃ (p + reqlen + uint (tail.headersize + tail.len))
  t' ← tail_offset zl₃
  if b == zip_end
      then some zl₃
      else put_tail_offset (t' + pos_part nextdiff + 2 ^ 32 - neg_part nextdiff) zl₃

-- The length of the entry in front of `p`, whose first byte is `b`.
unfoldable pub prevlen_at : Bytes → ℕ → ℕ → Option ℕ
prevlen_at zl p b =
    if b == zip_end
    then (do
      t ← tail_offset zl
      c ← get_elem? zl t
      if c == zip_end then some 0 else raw_entry_length (drop t zl))
    else (do e ← entry (drop p zl); some e.prevrawlen)

-- The entry is written at `p`, and counted.
unfoldable pub write_entry : Bytes → ℕ → ℕ → Bytes → Option Bytes
write_entry zl p prevlen s = do
  let (value, encoding) = choice (try_encoding s)
  zl₁ ← memcpy zl p (prev_encode_length prevlen)
  let q = p + prev_encode_length_size prevlen
  zl₂ ← memcpy zl₁ q (encode_length encoding (length s))
  body ← if is_str encoding then some s else save_integer value encoding
  zl₃ ← memcpy zl₂ (q + encode_length_size encoding (length s)) body
  incr_length zl₃ 1

module _ (junk : ℕ → ℕ) where
  -- ziplistResize
  unfoldable pub resize : Bytes → ℕ → Option Bytes
  resize zl len = do zl' ← put_bytes len (realloc junk len zl); memcpy zl' (len - 1) (zip_end ∷ [])

  -- The field of the next entry grows.
  unfoldable pub widen : Bytes → ℕ → ℕ → ℕ → ℕ → Option Round
  widen zl p curlen rawlen next_prevrawlensize = do
    let rawlensize = prev_encode_length_size rawlen
    let extra = rawlensize - next_prevrawlensize
    zl₁ ← resize zl (uint (curlen + extra))
    let np = p + rawlen
    t ← tail_offset zl₁
    zl₂ ← if t == np then some zl₁ else put_tail_offset (t + extra) zl₁
    let rest = size_sub curlen (np + next_prevrawlensize + 1)
    zl₃ ← memmove zl₂ (np + rawlensize) (np + next_prevrawlensize) rest
    zl₄ ← memcpy zl₃ np (prev_encode_length rawlen)
    some (again zl₄ np (curlen + extra))

  -- The field in the next entry is set to the raw length `rawlen`.
  unfoldable pub adjust_next : Bytes → ℕ → ℕ → ℕ → Zlentry → Option Round
  adjust_next zl p curlen rawlen next =
      let rawlensize = prev_encode_length_size rawlen in
      if next.prevrawlen == rawlen
      then some (done zl)
      else if ltb next.prevrawlensize rawlensize
      then widen zl p curlen rawlen next.prevrawlensize
      else (do
        zl' ← memcpy zl (p + rawlen) (
            if ltb rawlensize next.prevrawlensize
            then prev_encode_length_force_large rawlen
            else prev_encode_length rawlen)
        some (done zl'))

  -- The round at an entry: its raw length, and the next entry, if there is one.
  unfoldable pub cascade_entry : Bytes → ℕ → ℕ → Option Round
  cascade_entry zl p curlen = do
    cur ← entry (drop p zl)
    let rawlen = uint (cur.headersize + cur.len)
    b ← get_elem? zl (p + rawlen)
    if b == zip_end
        then some (done zl)
        else entry (drop (p + rawlen) zl) >>= adjust_next zl p curlen rawlen

  -- A round of the loop of __ziplistCascadeUpdate.
  unfoldable pub cascade_step : Bytes → ℕ → ℕ → Option Round
  cascade_step zl p curlen = do
    b ← get_elem? zl p
    if b == zip_end then some (done zl) else cascade_entry zl p curlen

  unfoldable pub cascade_loop : ℕ → Bytes → ℕ → ℕ → Option Bytes
  cascade_loop zero zl p curlen = none
  cascade_loop (suc fuel) zl p curlen = elim (cascade_step zl p curlen) [
    | none ↦ none
    | some (done zl') ↦ some zl'
    | some (again zl' p' curlen') ↦ cascade_loop fuel zl' p' curlen'
  ]

  -- __ziplistCascadeUpdate. There are fewer entries than bytes.
  unfoldable pub cascade_update : Bytes → ℕ → Option Bytes
  cascade_update zl p = do curlen ← ziplist_bytes zl; cascade_loop (length zl) zl p curlen

  -- Space is made at `p`, and the entries behind it are moved.
  unfoldable pub make_space : Bytes → ℕ → ℕ → ℕ → ℤ → Option Bytes
  make_space zl p curlen reqlen nextdiff = do
    zl₁ ← resize zl (uint (curlen + reqlen + pos_part nextdiff - neg_part nextdiff))
    b ← get_elem? zl₁ p
    zl₂ ← if b == zip_end then put_tail_offset p zl₁ else insert_before zl₁ p curlen reqlen nextdiff
    if pos_part nextdiff + neg_part nextdiff == 0 then some zl₂ else cascade_update zl₂ (p + reqlen)

  -- __ziplistInsert, ziplistInsert
  unfoldable pub insert : Bytes → ℕ → Bytes → Option Bytes
  insert zl p s = do
    curlen ← ziplist_bytes zl
    b ← get_elem? zl p
    prevlen ← prevlen_at zl p b
    let reqlen = required prevlen s
    nextdiff ← if b == zip_end then some (pos 0) else prev_len_byte_diff (drop p zl) (uint reqlen)
    zl' ← make_space zl p curlen reqlen nextdiff
    write_entry zl' p prevlen s

  -- ziplistPush: at ZIPLIST_HEAD, or at ZIPLIST_TAIL.
  unfoldable pub push_head : Bytes → Bytes → Option Bytes
  push_head zl s = insert zl header_size s

  unfoldable pub push_tail : Bytes → Bytes → Option Bytes
  push_tail zl s = do total ← ziplist_bytes zl; insert zl (total - 1) s
