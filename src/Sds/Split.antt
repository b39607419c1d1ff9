-- ===== src/Sds/Split.antt =====
-- `sdssplitlen` of sds.c. The array of tokens is the list of them, and its growth is left out. The
-- bytes behind the string are not read, as the index stops `seplen` before its end.
pub mod Join
pub mod Tokens
use project.Prelude.{
  ℕ, zero, suc, ◌+◌, ◌-◌, Bool, true, false, ◌&&◌, ◌||◌, Option, none, some, List, [], ◌∷◌, ◌++◌,
  ltb, leb, ◌==◌, if◌then◌else◌, length, take, drop,
}
use project.Sds.{Bytes}

-- `memcmp(s+j,sep,seplen) == 0`, where the string has the bytes.
pub starts_with : Bytes → Bytes → Bool
starts_with [] s = true
starts_with (c ∷ sep) [] = false
starts_with (c ∷ sep) (b ∷ s) = c == b && starts_with sep s

-- The loop over `j` from `start` on, where `current` holds the bytes from `start` to `j` and the
-- list those from `j` on; `j < len-(seplen-1)` says that the separator fits.
pub split_loop : ℕ → Bytes → Bytes → Bytes → List Bytes
unfolding starts_with
split_loop zero sep current s = (current ++ s) ∷ []
split_loop (suc fuel) sep current s = elim (leb (length sep) (length s)) [
  | false ↦ (current ++ s) ∷ []
  | true ↦ elim (starts_with sep s) [
    | true ↦ current ∷ split_loop fuel sep [] (drop (length sep) s)
    | false ↦ split_loop fuel sep (current ++ take 1 s) (drop 1 s)
  ]
]

-- sdssplitlen; `none` is NULL. Each round consumes a byte at least.
unfoldable pub split_len : Bytes → Bytes → Option (List Bytes)
unfolding split_loop
split_len s sep =
    if ltb (length sep) 1
    then none
    else if length s == 0
    then some []
    else some (split_loop (length s + 1) sep [] s)
