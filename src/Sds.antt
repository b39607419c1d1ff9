-- ===== src/Sds.antt =====
-- The dynamic strings of redis-2.6.16/src/sds.c and sds.h: the header's two fields, and the bytes
-- allocated behind them. A write outside these bytes is a fault, `none`. What realloc leaves in new
-- bytes is the argument `junk`; an allocation that fails ends the process. The fields are C ints,
-- kept as their bit patterns.
pub mod Buffer
pub mod Room
pub mod Append
pub mod Quote
pub mod Edit
pub mod Split
mod Tests
use project.Prelude.{
  ℕ, zero, suc, ◌+◌, ◌-◌, ◌*◌, ◌%◌, ◌^◌, Bool, true, false, ◌&&◌, ◌||◌, Option, none, some, List,
  [], ◌∷◌, ◌++◌, map, reverse, ltb, leb, ◌==◌, if◌then◌else◌, length, take, drop, get_or, replicate,
}
use project.Prelude.Int.{ℤ, pos, negsuc}

abbrev pub Bytes : Type 0
Bytes = List ℕ

pub record Sds : Type 0 where
  pub len : ℕ
  pub free : ℕ
  pub buf : Bytes

-- SDS_MAX_PREALLOC
abbrev pub max_prealloc : ℕ
max_prealloc = 1024 * 1024

-- An int read as a size_t, and a size_t stored in an int.
abbrev pub size_of_int : ℕ → ℕ
size_of_int i = if ltb i (2 ^ 31) then i else 2 ^ 64 - 2 ^ 32 + i

abbrev pub int_of_size : ℕ → ℕ
int_of_size n = n % 2 ^ 32

-- memcpy to the offset `i`.
unfoldable pub overlay : Bytes → ℕ → Bytes → Bytes
overlay [] i t = []
overlay (b ∷ buf) zero [] = b ∷ buf
overlay (b ∷ buf) zero (c ∷ t) = c ∷ overlay buf zero t
overlay (b ∷ buf) (suc i) t = b ∷ overlay buf i t

unfoldable pub memcpy : Bytes → ℕ → Bytes → Option Bytes
unfolding overlay
memcpy buf i t = if leb (i + length t) (length buf) then some (overlay buf i t) else none

-- zrealloc to `n` bytes.
unfoldable pub realloc : (ℕ → ℕ) → ℕ → Bytes → Bytes
realloc junk zero buf = []
realloc junk (suc n) [] = junk n ∷ realloc junk n []
realloc junk (suc n) (b ∷ buf) = b ∷ realloc junk n buf

-- The bytes written and the two fields set.
pub set_fields : ℕ → ℕ → Option Bytes → Option Sds
set_fields len free none = none
set_fields len free (some buf) = some (record { len = len; free = free; buf = buf })

-- sdsnewlen: `none` stands for the NULL that asks for zeros.
pub new_len : Option Bytes → ℕ → Sds
new_len none n = record { len = int_of_size n; free = 0; buf = replicate n 0 ++ 0 ∷ [] }
new_len (some init) n = record { len = int_of_size n; free = 0; buf = take n init ++ 0 ∷ [] }

-- sdsempty.
pub empty : Sds
unfolding new_len
empty = new_len (some []) 0

-- sdsdup.
pub dup : Sds → Sds
unfolding new_len
dup s = new_len (some s.buf) (size_of_int s.len)

-- sdsclear.
pub clear : Sds → Option Sds
unfolding set_fields
clear s = set_fields 0 (int_of_size (s.free + s.len)) (memcpy s.buf 0 (0 ∷ []))

-- The length to allocate for `addlen` more bytes.
pub grown_length : ℕ → ℕ → ℕ
grown_length len addlen =
    let newlen = (len + addlen) % 2 ^ 64 in
    (if ltb newlen max_prealloc then newlen * 2 else newlen + max_prealloc) % 2 ^ 64

-- sdsMakeRoomFor. The header takes 8 bytes, which realloc keeps too.
pub make_room_for : (ℕ → ℕ) → Sds → ℕ → Sds
make_room_for junk s addlen =
    let newlen = grown_length (size_of_int s.len) addlen in
    if leb addlen (size_of_int s.free) then s else record {
      len = s.len;
      free = int_of_size (newlen + (2 ^ 64 - size_of_int s.len));
      buf = realloc junk ((newlen + 1) % 2 ^ 64) s.buf;
    }

-- sdsRemoveFreeSpace.
pub remove_free_space : (ℕ → ℕ) → Sds → Sds
remove_free_space junk s = record s { free = 0; buf = realloc junk (size_of_int s.len + 1) s.buf }

-- sdsAllocSize, with the header of 8 bytes.
pub alloc_size : Sds → ℕ
alloc_size s = (8 + size_of_int s.len + size_of_int s.free + 1) % 2 ^ 64

-- sdsgrowzero: the bytes up to the new length and the terminator are set to 0.
pub grow_zero : (ℕ → ℕ) → Sds → ℕ → Option Sds
unfolding set_fields
grow_zero junk s len =
    let curlen = size_of_int s.len in
    let s' = make_room_for junk s (len - curlen) in
    if leb len curlen
    then some s
    else set_fields (int_of_size len)
        (int_of_size (size_of_int s'.len + size_of_int s'.free + (2 ^ 64 - len)))
        (memcpy s'.buf curlen (replicate (len - curlen + 1) 0))

-- sdscatlen with the `len` bytes `t`, and so sdscat and sdscatsds.
pub cat_len : (ℕ → ℕ) → Sds → Bytes → Option Sds
unfolding set_fields
cat_len junk s t =
    let curlen = size_of_int s.len in
    let len = length t in
    let s' = make_room_for junk s len in
    set_fields (int_of_size (curlen + len)) (int_of_size (size_of_int s'.free + (2 ^ 64 - len)))
      (memcpy s'.buf curlen (t ++ 0 ∷ []))

-- sdscpylen, and so sdscpy.
pub cpy_len : (ℕ → ℕ) → Sds → Bytes → Option Sds
unfolding set_fields
cpy_len junk s t =
    let len = length t in
    let totlen = size_of_int s.free + size_of_int s.len in
    let s' = if ltb totlen len then make_room_for junk s (len - size_of_int s.len) else s in
    let totlen' = size_of_int s'.free + size_of_int s'.len in
    set_fields (int_of_size len) (int_of_size (totlen' + (2 ^ 64 - len)))
      (memcpy s'.buf 0 (t ++ 0 ∷ []))
