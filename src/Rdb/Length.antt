-- ===== src/Rdb/Length.antt =====
-- `rdbSaveLen` and `rdbLoadLen` of rdb.c.
use project.Prelude.{
  ℕ, ◌+◌, ◌-◌, ◌*◌, ◌/◌, ◌%◌, ◌^◌, ◌<◌, ◌≡◌, ◌≢◌, refl, Option, some, [], ◌++◌, ltb, length, arith,
  ap, Bool-cases, inl, inr,
}
use project.Prelude.Int.{pos}
use project.Rdb.{Bytes, save_len, loaded, load_len, len_err}

-- A stream in memory: what is written is appended.
abbrev pub append : Bytes → Bytes → Option Bytes
append r p = some (r ++ p)

-- A length below 2^32 - 1 that is written to a stream that does not fail is what is read from its
-- bytes, whatever follows them, and is not the value that stands for an error; save_len returns how
-- many bytes there are.
pub load_len-save_len :
    (len : ℕ) (rest : Bytes)
    → len < 2 ^ 32 - 1
    → ((save_len append [] len).1 ≡ pos (length (save_len append [] len).0))
      × (load_len ((save_len append [] len).0 ++ rest) ≡ loaded len rest)
      × (len ≢ len_err)
unfolding save_len load_len
load_len-save_len len rest h = elim (Bool-cases (ltb len (2 ^ 6))) [
  | inl short ↦
      let q : (len % 256 + 0) / 64 ≡ 0 = ground arith in
      let m : (len % 256 + 0) % 64 ≡ len = ground arith in
      rw short (refl, ground (arith, q, m), omega arith)
  | inr long ↦ elim (Bool-cases (ltb len (2 ^ 14))) [
    | inl middle ↦
        let q : (len / 256 % 256 + 64) / 64 ≡ 1 = ground arith in
        let m : (len / 256 % 256 + 64) % 64 * 256 + len % 256 ≡ len = ground arith in
        rw (long, middle) (refl, ground (arith, q, m), omega arith)
    | inr longer ↦ rw (long, longer) (refl, ap (λ n. loaded n rest) (omega arith), omega arith)
  ]
]
