-- ===== src/Sds/Edit.antt =====
-- Cutting, comparing and mapping the strings of sds.c in place.
pub mod Range
use project.Prelude.{
  ℕ, zero, suc, ◌+◌, ◌-◌, ◌*◌, ◌%◌, ◌^◌, Bool, true, false, not, ◌&&◌, ◌||◌, Option, none, some,
  List, [], ◌∷◌, ◌++◌, map, ltb, leb, ◌==◌, if◌then◌else◌, length, take, drop, get_or, min,
}
use project.Prelude.Int.{ℤ, pos, negsuc, ltb_ℤ, sub_ℕ}
use project.Sds.{Bytes, Sds, memcpy, set_fields, size_of_int, int_of_size}

-- memmove of `n` bytes at `from` to the start, and the terminator behind them; sdsrange and
-- sdstrim end so.
pub cut : Sds → ℕ → ℕ → Option Sds
unfolding set_fields
cut s from n =
    set_fields n (int_of_size (s.free + (s.len - n)))
      (memcpy s.buf 0 (take n (drop from s.buf) ++ 0 ∷ []))

-- A negative index counts from the end, and stops at 0.
pub from_end : ℕ → ℤ → ℕ
from_end len (pos i) = i
from_end len (negsuc i) = len - suc i

-- `(start > end) ? 0 : (end-start)+1`
pub span : ℕ → ℕ → ℕ
span start end' = if ltb end' start then 0 else end' - start + 1

-- The start and the length that sdsrange keeps.
pub range_bounds : ℕ → ℕ → ℕ → ℕ × ℕ
unfolding span
range_bounds len start end' =
    if span start end' == 0
    then (0, 0)
    else if leb len start
    then (start, 0)
    else if leb len end'
    then (start, span start (len - 1))
    else (start, span start end')

-- sdsrange, on a string shorter than 2^31.
pub range : Sds → ℤ → ℤ → Option Sds
unfolding cut from_end range_bounds
range s start end' =
    let (from, n) = range_bounds s.len (from_end s.len start) (from_end s.len end') in
    if s.len == 0 then some s else cut s from n

-- `strchr(cset, c)`, which finds the terminator too.
pub in_set : Bytes → ℕ → Bool
in_set [] c = c == 0
in_set (b ∷ cset) c = b == c || in_set cset c

-- `while(sp <= end && strchr(cset, *sp)) sp++`: the bytes passed.
pub trim_left : Bytes → Bytes → ℕ
unfolding in_set
trim_left cset [] = 0
trim_left cset (b ∷ x) = let rest = suc (trim_left cset x) in if in_set cset b then rest else 0

-- `while(ep > start && strchr(cset, *ep)) ep--` from the index `ep`.
pub trim_right : Bytes → Bytes → ℕ → ℕ
unfolding in_set
trim_right cset x zero = 0
trim_right cset x (suc ep) =
    let rest = trim_right cset x ep in if in_set cset (get_or x (suc ep) 0) then rest else suc ep

-- sdstrim. With no bytes `ep` stands before `sp`.
unfoldable pub trim : Sds → Bytes → Option Sds
unfolding cut trim_left trim_right
trim s cset =
    let sp = trim_left cset (take s.len s.buf) in
    let ep = trim_right cset s.buf (s.len - 1) in
    cut s sp (if s.len == 0 || ltb ep sp then 0 else ep - sp + 1)

-- The sign of memcmp.
pub memcmp : Bytes → Bytes → ℤ
memcmp [] y = pos 0
memcmp (a ∷ x) [] = pos 0
memcmp (a ∷ x) (b ∷ y) = if ltb a b then negsuc 0 else if ltb b a then pos 1 else memcmp x y

-- sdscmp, on strings shorter than 2^31.
unfoldable pub cmp : Sds → Sds → ℤ
unfolding memcmp
cmp s t =
    let n = min s.len t.len in
    let c = memcmp (take n s.buf) (take n t.buf) in
    elim c [ negsuc a ↦ negsuc a | pos zero ↦ sub_ℕ s.len t.len | pos (suc a) ↦ pos (suc a) ]

-- The loops of sdstolower, sdstoupper and sdsmapchars over the first `len` bytes.
pub map_bytes : (ℕ → ℕ) → ℕ → Bytes → Bytes
map_bytes f zero buf = buf
map_bytes f (suc n) [] = []
map_bytes f (suc n) (b ∷ buf) = f b ∷ map_bytes f n buf

pub tolower : ℕ → ℕ
tolower c = if leb b'A' c && leb c b'Z' then c + 32 else c

pub toupper : ℕ → ℕ
toupper c = if leb b'a' c && leb c b'z' then c - 32 else c

-- sdstolower and sdstoupper.
pub to_lower : Sds → Sds
unfolding map_bytes tolower
to_lower s = record s { buf = map_bytes tolower s.len s.buf }

unfoldable pub to_upper : Sds → Sds
unfolding map_bytes toupper
to_upper s = record s { buf = map_bytes toupper s.len s.buf }

-- The first place in `from` where the byte is gives the byte in `to`.
pub substitute : Bytes → Bytes → ℕ → ℕ
substitute [] to c = c
substitute (f ∷ from) [] c = c
substitute (f ∷ from) (t ∷ to) c = if c == f then t else substitute from to c

-- sdsmapchars.
unfoldable pub map_chars : Sds → Bytes → Bytes → Sds
unfolding map_bytes substitute
map_chars s from to = record s { buf = map_bytes (substitute from to) s.len s.buf }
