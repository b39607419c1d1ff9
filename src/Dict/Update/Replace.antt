-- ===== src/Dict/Update/Replace.antt =====
-- `dictReplace` of dict.c.
use project.Prelude.{ℕ, ◌≤◌, ◌<◌, ◌≢◌, none, ◌==◌, arith, inl, inr, Bool-cases, ==→eq}
use project.Dict.{DictType, Dict, bucket, find_in}
use project.Dict.Chains.{count}
use project.Dict.Rehash.{IsValid}
use project.Dict.Find.{find_in-none}

module _ {ℓ} {K V : Type ℓ} ⦃type : DictType K⦄ where
  -- A key is only read where there is a table.
  pub some_table : (d : Dict K V) (k : K) → IsValid d → find_in d k ≢ none → 0 < d.ht0.size
  some_table d k v here = elim (Bool-cases (d.ht0.size == 0)) [
    | inl empty ↦ absurd (here (find_in-none d k v (==→eq d.ht0.size 0 empty)))
    | inr table ↦ ground arith
  ]

  pub once_first : (d : Dict K V) (k : K) (i : ℕ) → IsValid d → count k (bucket d.ht0 i) ≤ 1
  once_first d k i v = omega (arith, v.once k i 0)

  pub once_second : (d : Dict K V) (k : K) (i : ℕ) → IsValid d → count k (bucket d.ht1 i) ≤ 1
  once_second d k i v = omega (arith, v.once k 0 i)
