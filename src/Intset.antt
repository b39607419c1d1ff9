-- ===== src/Intset.antt =====
-- The sorted integer set of redis-2.6.16/src/intset.c and intset.h, on its bytes, for a
-- little-endian machine (where `intrev32ifbe` and the like do nothing).
pub mod Bytes
pub mod Search
pub mod Shape
pub mod Encoding
pub mod Insert
pub mod Upgrade
pub mod Add
pub mod Remove
mod Tests
use project.Prelude.{
  ℕ, zero, suc, ◌+◌, ◌-◌, ◌*◌, ◌/◌, ◌%◌, ◌^◌, ◌≤◌, ◌<◌, Bool, true, false, ◌&&◌, ◌||◌, Option, none,
  some, ltb, leb, ◌==◌, if◌then◌else◌,
}
use project.Prelude.Int.{ℤ, pos, negsuc, ltb_ℤ}
use project.Intset.Bytes.{Memory, load, store, move}

abbrev pub int16 : ℕ
int16 = 2

abbrev pub int32 : ℕ
int32 = 4

abbrev pub int64 : ℕ
int64 = 8

-- `room` is the number of bytes allocated for `contents`.
pub record Intset : Type 0 where
  pub encoding : ℕ
  pub length : ℕ
  pub contents : Memory
  pub room : ℕ

-- `v < INT32_MIN || v > INT32_MAX` and so on.
pub value_encoding : ℤ → ℕ
value_encoding v =
    if ltb_ℤ v (negsuc 0x7fff_ffff) || ltb_ℤ (pos 0x7fff_ffff) v
    then int64
    else if ltb_ℤ v (negsuc 0x7fff) || ltb_ℤ (pos 0x7fff) v
    then int32
    else int16

-- The width in bytes that an encoding's branch reads or writes.
abbrev pub width : ℕ → ℕ
width enc = if enc == int64 then 8 else if enc == int32 then 4 else 2

pub get_encoded : Intset → ℕ → ℕ → ℤ
get_encoded is i enc = load (width enc) is.contents (i * width enc)

pub get : Intset → ℕ → ℤ
unfolding get_encoded
get is i = get_encoded is i is.encoding

pub set : Intset → ℕ → ℤ → Intset
set is i value = record is {
  contents = store (width is.encoding) is.contents (i * width is.encoding) value;
}

-- zmalloc gives the header only.
pub new : Memory → Intset
new garbage = record { encoding = int16; length = 0; contents = garbage; room = 0 }

-- The size is a uint32_t.
pub resize : Intset → ℕ → Intset
resize is len = record is { room = (len * is.encoding) % 2 ^ 32 }

-- What the loop of the search leaves: `cur` as it was last read, `mid` and `min`.
pub record Found : Type 0 where
  pub cur : ℤ
  pub mid : ℕ
  pub min : ℕ

-- `while (max >= min)`, where `hi` is max + 1, so that max = mid - 1 is hi = mid. The source's
-- indices are ints: the numbers here are exact where the set has less than 2^30 elements, so that
-- `min+max` does not overflow. A sorted set whose bytes are counted in 32 bits has no more: its
-- elements take four bytes or eight, or are 16-bit values, of which there are 65536.
pub search_loop : ℕ → Intset → ℤ → ℕ → ℕ → Found → Found
unfolding get
search_loop zero is value min hi last = last
search_loop (suc fuel) is value min hi last =
    let mid = (min + (hi - 1)) / 2 in
    let cur = get is mid in
    let up =
      search_loop fuel is value (mid + 1) hi (record { cur = cur; mid = mid; min = mid + 1 }) in
    let down = search_loop fuel is value min mid (record { cur = cur; mid = mid; min = min }) in
    if ltb min hi
    then (if ltb_ℤ cur value
        then up
        else if ltb_ℤ value cur
        then down
        else record { cur = cur; mid = mid; min = min })
    else last

-- `if (value == cur)` after the loop.
pub answer : ℤ → Found → Bool × ℕ
answer value r = if ltb_ℤ value r.cur || ltb_ℤ r.cur value then (false, r.min) else (true, r.mid)

-- Whether the value is there, and the position. The loop has `length` elements to halve; `mid` is
-- read before it is set in no run.
pub search : Intset → ℤ → Bool × ℕ
unfolding search_loop answer
search is value =
    if is.length == 0
    then (false, 0)
    else if ltb_ℤ (get is (is.length - 1)) value
    then (false, is.length)
    else if ltb_ℤ value (get is 0)
    then (false, 0)
    else answer value (
        search_loop (is.length + 1) is value 0 is.length
          (record { cur = negsuc 0; mid = 0; min = 0 }))

-- `while(length--)`: the last element first, from the old width to the new one.
pub upgrade_loop : ℕ → ℕ → ℕ → Intset → Intset
unfolding get_encoded set
upgrade_loop zero prepend curenc is = is
upgrade_loop (suc n) prepend curenc is =
    upgrade_loop n prepend curenc (set is (n + prepend) (get_encoded is n curenc))

pub upgrade_and_add : Intset → ℤ → Intset
unfolding value_encoding resize upgrade_loop
upgrade_and_add is value =
    let prepend : ℕ = if ltb_ℤ value (pos 0) then 1 else 0 in
    let is₁ = resize (record is { encoding = value_encoding value }) (is.length + 1) in
    let is₂ = upgrade_loop is.length prepend is.encoding is₁ in
    let is₃ = if prepend == 1 then set is₂ 0 value else set is₂ is.length value in
    record is₃ { length = is.length + 1 }

-- memmove of everything from element `from` on to element `to`.
pub move_tail : Intset → ℕ → ℕ → Intset
move_tail is from to =
    let w = width is.encoding in
    record is { contents = move is.contents (from * w) (to * w) ((is.length - from) * w) }

-- What `intsetAdd` does with a value that was not found and belongs at `i`.
pub insert_at : Intset → ℤ → ℕ → Intset
unfolding move_tail resize set
insert_at is value i =
    let is₁ = resize is (is.length + 1) in
    let is₂ = if ltb i is.length then move_tail is₁ i (i + 1) else is₁ in
    record (set is₂ i value) { length = is.length + 1 }

-- The set, and `*success`.
pub add : Intset → ℤ → Intset × Bool
unfolding search upgrade_and_add insert_at value_encoding
add is value =
    if ltb is.encoding (value_encoding value)
    then (upgrade_and_add is value, true)
    else let (found, i) = search is value in
      if found then (is, false) else (insert_at is value i, true)

-- What `intsetRemove` does with the value found at `i`: the tail moves over it.
pub delete_at : Intset → ℕ → Intset
unfolding move_tail resize
delete_at is i =
    let len = is.length in
    let is₁ = if ltb i (len - 1) then move_tail is (i + 1) i else is in
    record (resize is₁ (len - 1)) { length = len - 1 }

pub remove : Intset → ℤ → Intset × Bool
unfolding search value_encoding delete_at
remove is value =
    let (found, i) = search is value in
    if leb (value_encoding value) is.encoding && found then (delete_at is i, true) else (is, false)

pub find : Intset → ℤ → Bool
unfolding search value_encoding
find is value = leb (value_encoding value) is.encoding && (search is value).0

-- `rand()%length` divides by zero on an empty set: `none`.
pub random : ℕ → Intset → Option ℤ
unfolding get
random rand is = if is.length == 0 then none else some (get is (rand % is.length))

-- intsetGet: the value, where the position is in range.
pub get_at : Intset → ℕ → Option ℤ
unfolding get
get_at is i = if ltb i is.length then some (get is i) else none

-- sizeof(intset) is 8.
pub blob_len : Intset → ℕ
blob_len is = 8 + is.length * is.encoding
