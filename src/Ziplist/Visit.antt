-- ===== src/Ziplist/Visit.antt =====
-- The operations of ziplist.c that read a ziplist. The outer `none` is a fault, an inner one stands
-- for NULL or 0.
use project.Prelude.{
  ℕ, zero, suc, ◌+◌, ◌-◌, Bool, true, false, ◌&&◌, ◌||◌, Option, none, some, [], ◌∷◌, ltb, leb,
  ◌==◌, if◌then◌else◌, length, take, drop, get_elem?,
}
use project.Prelude.Int.{ℤ, pos, negsuc, ltb_ℤ}
use project.Prelude.Options.{◌>>=◌}
use project.Rdb.{Bytes}
use project.Ziplist.{
  zip_end, is_str, decode_prevlensize, decode_length, raw_entry_length, try_encoding, load_integer,
  entry,
}
use project.Ziplist.Blob.{header_size, tail_offset, ziplist_length, put_length}

-- What an entry holds: a string or an integer.
pub data Value : Type 0 where
  text : Bytes → Value
  number : ℤ → Value

-- The payload at `q`.
unfoldable pub read_payload : ℕ → ℕ → Bytes → Option Value
read_payload encoding len q =
    if is_str encoding
    then (if leb len (length q) then some (text (take len q)) else none)
    else (load_integer q encoding >>= λ v. some (number v))

-- ziplistGet
unfoldable pub get : Bytes → Option (Option Value)
get [] = none
get (b ∷ p) = if b == zip_end then some none else (do
  e ← entry (b ∷ p)
  v ← read_payload e.encoding e.len (drop e.headersize (b ∷ p))
  some (some v))

-- The loops of ziplistIndex: the entry reached, and the index that is left. Where a loop ends by the
-- index, C leaves -1.
unfoldable pub forward : Bytes → ℕ → ℕ → Option (ℕ × ℕ)
forward zl p zero = some (p, 0)
forward zl p (suc i) = do
  b ← get_elem? zl p
  if b == zip_end
      then some (p, suc i)
      else raw_entry_length (drop p zl) >>= λ n. forward zl (p + n) i

unfoldable pub backward : Bytes → ℕ → ℕ → ℕ → Option (ℕ × ℕ)
backward zl p prevrawlen zero = some (p, 0)
backward zl p prevrawlen (suc i) =
    if prevrawlen == 0
    then some (p, suc i)
    else if ltb p prevrawlen
    then none
    else (do e ← entry (drop (p - prevrawlen) zl); backward zl (p - prevrawlen) e.prevrawlen i)

-- `(p[0] == ZIP_END || index > 0) ? NULL : p`
unfoldable pub reached : Bytes → ℕ × ℕ → Option (Option ℕ)
reached zl (p, left) = do
  b ← get_elem? zl p
  some (if b == zip_end || ltb 0 left then none else some p)

-- ziplistIndex, for an index above INT_MIN.
unfoldable pub index : Bytes → ℤ → Option (Option ℕ)
index zl (pos i) = forward zl header_size i >>= reached zl
index zl (negsuc i) = do
  t ← tail_offset zl
  b ← get_elem? zl t
  at ← if b == zip_end then some (t, i) else entry (drop t zl) >>= λ e. backward zl t e.prevrawlen i
  reached zl at

-- ziplistNext
unfoldable pub next : Bytes → ℕ → Option (Option ℕ)
next zl p = do
  b ← get_elem? zl p
  if b == zip_end then some none else raw_entry_length (drop p zl) >>= λ n. reached zl (p + n, 0)

-- ziplistPrev
unfoldable pub prev : Bytes → ℕ → Option (Option ℕ)
prev zl p = do
  b ← get_elem? zl p
  if b == zip_end
      then (tail_offset zl >>= λ t. reached zl (t, 0))
      else if p == header_size
      then some none
      else (do
        e ← entry (drop p zl)
        if e.prevrawlen == 0 || ltb p e.prevrawlen then none else some (some (p - e.prevrawlen)))

unfoldable pub same_bytes : Bytes → Bytes → Bool
same_bytes [] [] = true
same_bytes [] (c ∷ t) = false
same_bytes (b ∷ s) [] = false
same_bytes (b ∷ s) (c ∷ t) = b == c && same_bytes s t

abbrev pub same_int : ℤ → ℤ → Bool
same_int a b = if ltb_ℤ a b then false else if ltb_ℤ b a then false else true

-- An entry of an encoding compared with `s`, as ziplistCompare and ziplistFind do.
unfoldable pub same_entry : ℕ → ℕ → Bytes → Bytes → Option Bool
same_entry encoding len q s =
    if is_str encoding
    then (if len == length s
        then (if leb len (length q) then some (same_bytes (take len q) s) else none)
        else some false)
    else elim (try_encoding s) [
      | none ↦ some false
      | some (v, e) ↦ load_integer q encoding >>= λ w. some (same_int w v)
    ]

-- ziplistCompare
unfoldable pub compare : Bytes → Bytes → Option Bool
compare [] s = none
compare (b ∷ p) s =
    if b == zip_end
    then some false
    else (entry (b ∷ p) >>= λ e. same_entry e.encoding e.len (drop e.headersize (b ∷ p)) s)

-- An entry as the loop of ziplistFind reads it: the bytes of the payload, the length and the
-- encoding.
unfoldable pub parts : Bytes → Option (ℕ × ℕ × ℕ)
parts p = do
  prevlensize ← decode_prevlensize p
  (encoding, lensize, len) ← decode_length (drop prevlensize p)
  some (encoding, len, prevlensize + lensize)

-- The loop of ziplistFind. Trying to encode the text each time gives what the first time gave.
unfoldable pub find_loop : ℕ → Bytes → ℕ → Bytes → ℕ → ℕ → Option (Option ℕ)
find_loop zero zl p s skip skipcnt = none
find_loop (suc fuel) zl p s skip skipcnt = do
  b ← get_elem? zl p
  if b == zip_end then some none else (do
    (encoding, len, at) ← parts (drop p zl)
    found ← if skipcnt == 0 then same_entry encoding len (drop (p + at) zl) s else some false
    if found
        then some (some p)
        else find_loop fuel zl (p + at + len) s skip (if skipcnt == 0 then skip else skipcnt - 1))

-- ziplistFind from `p` on; there are fewer entries than bytes.
unfoldable pub find : Bytes → ℕ → Bytes → ℕ → Option (Option ℕ)
find zl p s skip = find_loop (length zl) zl p s skip 0

-- The loop of ziplistLen.
unfoldable pub count_loop : ℕ → Bytes → ℕ → ℕ → Option ℕ
count_loop zero zl p len = none
count_loop (suc fuel) zl p len = do
  b ← get_elem? zl p
  if b == zip_end
      then some len
      else raw_entry_length (drop p zl) >>= λ n. count_loop fuel zl (p + n) (len + 1)

-- ziplistLen: the length, and the ziplist with the length stored again where it is small.
unfoldable pub len : Bytes → Option (ℕ × Bytes)
len zl = do
  n ← ziplist_length zl
  if ltb n 65535 then some (n, zl) else (do
    n' ← count_loop (length zl) zl header_size 0
    zl' ← if ltb n' 65535 then put_length n' zl else some zl
    some (n', zl'))
