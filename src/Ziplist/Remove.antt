-- ===== src/Ziplist/Remove.antt =====
-- The deletion of entries, of ziplist.c.
use project.Prelude.{
  ℕ, zero, suc, ◌+◌, ◌-◌, ◌^◌, Option, none, some, ◌==◌, if◌then◌else◌, drop, get_elem?,
}
use project.Prelude.Int.{ℤ, pos, pos_part, neg_part}
use project.Prelude.Options.{◌>>=◌}
use project.Rdb.{Bytes}
use project.Sds.{memcpy}
use project.Ziplist.{
  zip_end, uint, prev_encode_length, prev_len_byte_diff, raw_entry_length, Zlentry, entry,
}
use project.Ziplist.Blob.{
  size_sub, memmove, ziplist_bytes, tail_offset, put_tail_offset, incr_length, resize,
  cascade_update,
}
use project.Ziplist.Visit.{index}

-- The loop over the entries to delete: where it ends, and how many there were.
unfoldable pub skip : ℕ → Bytes → ℕ → ℕ → Option (ℕ × ℕ)
skip zero zl p deleted = some (p, deleted)
skip (suc num) zl p deleted = do
  b ← get_elem? zl p
  if b == zip_end
      then some (p, deleted)
      else raw_entry_length (drop p zl) >>= λ n. skip num zl (p + n) (deleted + 1)

-- The entries from `q` on are moved to `p`, where the length in front of them is `prev`.
unfoldable pub close_gap : Bytes → ℕ → ℕ → ℕ → ℤ → Option Bytes
close_gap zl p q prev nextdiff = do
  let q' = q + neg_part nextdiff - pos_part nextdiff
  zl₁ ← memcpy zl q' (prev_encode_length prev)
  t ← tail_offset zl₁
  zl₂ ← put_tail_offset (t + 2 ^ 32 - (q - p)) zl₁
  tail ← entry (drop q' zl₂)
  b ← get_elem? zl₂ (q' + uint (tail.headersize + tail.len))
  t' ← tail_offset zl₂
  zl₃ ←
      if b == zip_end
      then some zl₂
      else put_tail_offset (t' + pos_part nextdiff + 2 ^ 32 - neg_part nextdiff) zl₂
  total ← ziplist_bytes zl₃
  memmove zl₃ p q' (size_sub total (q' + 1))

module _ (junk : ℕ → ℕ) where
  -- The entries from `p` to `q` are taken out; `first` is the one at `p`.
  unfoldable pub take_out : Bytes → ℕ → ℕ → ℕ → Zlentry → Option Bytes
  take_out zl p q deleted first = do
    b ← get_elem? zl q
    nextdiff ←
        if b == zip_end then some (pos 0) else prev_len_byte_diff (drop q zl) first.prevrawlen
    zl₁ ←
        if b == zip_end
        then put_tail_offset (p + 2 ^ 32 - first.prevrawlen) zl
        else close_gap zl p q first.prevrawlen nextdiff
    total ← ziplist_bytes zl₁
    zl₂ ← resize junk zl₁ (uint (total + 2 ^ 32 - (q - p) + pos_part nextdiff - neg_part nextdiff))
    zl₃ ← incr_length zl₂ (2 ^ 32 - deleted)
    if pos_part nextdiff + neg_part nextdiff == 0 then some zl₃ else cascade_update junk zl₃ p

  -- __ziplistDelete
  unfoldable pub delete_entries : Bytes → ℕ → ℕ → Option Bytes
  delete_entries zl p num = do
    first ← entry (drop p zl)
    (q, deleted) ← skip num zl p 0
    if q == p then some zl else take_out zl p q deleted first

  -- ziplistDelete, after which the pointer has the offset that it had.
  unfoldable pub delete : Bytes → ℕ → Option Bytes
  delete zl p = delete_entries zl p 1

  -- ziplistDeleteRange
  unfoldable pub delete_range : Bytes → ℤ → ℕ → Option Bytes
  delete_range zl i num = do
    at ← index zl i
    elim at [ none ↦ some zl | some p ↦ delete_entries zl p num ]
