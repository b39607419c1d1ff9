-- ===== src/Rdb/Tests.antt =====
-- The lengths and integers of rdb.c at a few values.
use project.Prelude.{
  ℕ, ◌+◌, ◌≡◌, ◌≢◌, refl, Option, none, some, [], ◌∷◌, ◌++◌, length, arith, if◌then◌else◌, ltb,
}
use project.Prelude.Int.{pos, negsuc}
use project.Rdb.{Bytes, save_len, loaded, encoded, load_len, len_err, encode_integer, load_integer}
use project.Rdb.Length.{append, load_len-save_len}
use project.Rdb.Integer.{load_integer-encode_integer}

load_len-save_len_example :
    ((save_len append [] 70000).1 ≡ pos (length (save_len append [] 70000).0))
    × (load_len ((save_len append [] 70000).0 ++ 7 ∷ []) ≡ loaded 70000 (7 ∷ []))
    × (70000 ≢ len_err)
load_len-save_len_example = load_len-save_len 70000 (7 ∷ []) (omega arith)

-- A stream with room for two bytes.
abbrev narrow : Bytes → Bytes → Option Bytes
narrow r p = if ltb 2 (length r + length p) then none else some (r ++ p)

-- The second write fails, and the result is 5 all the same.
lost_write : save_len narrow [] 70000 ≡ (128 ∷ [], pos 5)
unfolding save_len
lost_write = refl

-- The largest length is read as the error.
largest_length : load_len (save_len append [] 0xffff_ffff).0 ≡ load_len []
unfolding save_len load_len
largest_length = refl

load_integer-encode_integer_example :
    (enctype : ℕ) × (s : Bytes) × (load_len (encode_integer (negsuc 999) ++ 7 ∷ [])
      ≡ encoded enctype s)
    × (load_integer enctype s ≡ some (negsuc 999, 7 ∷ []))
load_integer-encode_integer_example = load_integer-encode_integer (negsuc 999) (7 ∷ []) refl
