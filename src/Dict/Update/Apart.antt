-- ===== src/Dict/Update/Apart.antt =====
-- The memory of the entries that `dictAddRaw` of dict.c makes.
use project.Prelude.{ℕ, ◌+◌, ◌≤◌, ◌⊎◌}
use project.Aggregator.{Ptr, Pool}
use project.Aggregator.Owned.{BothOwned}
use project.Dict.{Dict}
use project.Dict.Update.{entry_size}

-- A dictionary, an entry and a pool: the entry overlaps none of the `t` bytes from `b` on, and both
-- lie in no free part of a page of the pool.
abbrev pub IsApart : ℕ → ℕ → Ptr → Pool → Type 0
IsApart b t entry s =
    ((b + t ≤ entry) ⊎ (entry + entry_size ≤ b)) × BothOwned b t entry entry_size s
