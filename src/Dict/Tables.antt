-- ===== src/Dict/Tables.antt =====
-- One table of dict.c: its invariant, and what it means to move a chain into it.
use project.Prelude.{
  ℕ, ◌+◌, ◌-◌, ◌≤◌, ◌<◌, ◌≡◌, refl, ◌≢◌, true, none, some, [], ◌∷◌, ◌==◌, if◌then◌else◌, length,
  set, arith, ap, ◌∙◌, bit_and, length-set,
}
use project.Dict.{
  DictType, Chain, Table, index, bucket, push_entry, move_chain, find_chain, no_table,
}
use project.Dict.Chains.{count, find_chain-none, total, total-set, get_or-set}
use project.Dict.Mask.{bit_and-le_right}

module _ {ℓ} {K V : Type ℓ} ⦃type : DictType K⦄ where
  -- The vector has `size` chains, the mask is the largest index, `used` counts the entries, and an
  -- entry stands only in the chain of its key's hash.
  pub record IsTable (t : Table K V) : Type ℓ where
    pub sized : length t.buckets ≡ t.size
    pub masked : t.sizemask ≡ t.size - 1
    pub counted : t.used ≡ total t.buckets
    pub placed : (i : ℕ) (q : K) → index t q ≢ i → count q (bucket t i) ≡ 0

  pub index-lt : (t : Table K V) (q : K) → IsTable t → 0 < t.size → index t q < length t.buckets
  index-lt t q v pos =
      omega (arith, v.sized, v.masked, bit_and-le_right (type.hash_key q) t.sizemask)

  pub index_congr : (t : Table K V) (a b : K) → type.compare_keys a b ≡ true → index t a ≡ index t b
  index_congr t a b e = ap (λ h. bit_and h t.sizemask) (type.hash-compare a b e)

  bucket-push_entry :
      (t : Table K V) (e : K × V) (i : ℕ)
      → IsTable t
      → 0 < t.size
      → bucket (push_entry t e) i
        ≡ (if index t e.0 == i then e ∷ bucket t (index t e.0) else bucket t i)
  unfolding push_entry
  bucket-push_entry t e i v pos =
      get_or-set t.buckets (index t e.0) i (e ∷ bucket t (index t e.0)) (index-lt t e.0 v pos)

  push_entry-placed :
      (t : Table K V) (e : K × V) (i : ℕ) (q : K)
      → IsTable t
      → 0 < t.size
      → index t q ≢ i
      → count q (bucket (push_entry t e) i) ≡ 0
  unfolding count
  push_entry-placed t e i q v pos apart =
      ground (arith, bucket-push_entry t e i v pos, index_congr t q e.0, v.placed i q)

  push_entry-IsTable :
      (t : Table K V) (e : K × V) → IsTable t → 0 < t.size → IsTable (push_entry t e)
  push_entry-IsTable t e v pos = record {
    sized = unfold push_entry in (length-set t.buckets _ _ ∙ v.sized);
    masked = unfold push_entry in v.masked;
    counted =
        unfold push_entry in
        omega (
          arith,
          v.counted,
          total-set t.buckets (index t e.0) (e ∷ bucket t (index t e.0)) (index-lt t e.0 v pos),
        );
    placed = λ i q apart. push_entry-placed t e i q v pos (unfold push_entry in apart);
  }

  -- What pushing an entry does to the chain of a key, and to how often a key stands in a chain.
  find_chain-push_entry :
      (t : Table K V) (e : K × V) (q : K)
      → IsTable t
      → 0 < t.size
      → find_chain q (bucket (push_entry t e) (index t q))
        ≡ (if type.compare_keys q e.0 then some e.1 else find_chain q (bucket t (index t q)))
  unfolding find_chain
  find_chain-push_entry t e q v pos =
      ground (arith, bucket-push_entry t e (index t q) v pos, index_congr t q e.0)

  count-push_entry :
      (t : Table K V) (e : K × V) (q : K) (i : ℕ)
      → IsTable t
      → 0 < t.size
      → count q (bucket (push_entry t e) i)
        ≤ count q (bucket t i) + (if type.compare_keys q e.0 then 1 else 0)
  unfolding count
  count-push_entry t e q i v pos = ground (arith, bucket-push_entry t e i v pos)

  pub move_chain-IsTable :
      (c : Chain K V) (t : Table K V) → IsTable t → 0 < t.size → IsTable (move_chain c t)
  unfolding move_chain
  move_chain-IsTable [] t v pos = v
  move_chain-IsTable (e ∷ c) t v pos =
      move_chain-IsTable c (push_entry t e) (push_entry-IsTable t e v pos)
        (unfold push_entry in pos)

  pub move_chain_fields :
      (c : Chain K V) (t : Table K V)
      → ((move_chain c t).size ≡ t.size) × ((move_chain c t).sizemask ≡ t.sizemask)
  unfolding move_chain push_entry
  move_chain_fields [] t = (refl, refl)
  move_chain_fields (e ∷ c) t = move_chain_fields c (push_entry t e)

  -- A key that the moved chain has once or not at all is found there first.
  pub find_chain-move_chain :
      (c : Chain K V) (t : Table K V) (q : K)
      → IsTable t
      → 0 < t.size
      → count q c ≤ 1
      → find_chain q (bucket (move_chain c t) (index t q))
        ≡ (elim (find_chain q c) [ some w ↦ some w | none ↦ find_chain q (bucket t (index t q)) ])
  unfolding move_chain find_chain count
  find_chain-move_chain [] t q v pos once = refl
  find_chain-move_chain (e ∷ c) t q v pos once =
      let t' : Table K V = push_entry t e in
      let same : index t' q ≡ index t q = unfold push_entry in refl in
      let ih =
        find_chain-move_chain c t' q (push_entry-IsTable t e v pos) (unfold push_entry in pos)
          (omega arith) in
      let ih' : find_chain q (bucket (move_chain c t') (index t q)) ≡ (elim (find_chain q c) [
        | some w ↦ some w
        | none ↦ find_chain q (bucket t' (index t q))
      ]) =
        rw same at ih in
      ground (arith, ih', find_chain-push_entry t e q v pos, find_chain-none q c)

  pub count-move_chain :
      (c : Chain K V) (t : Table K V) (q : K) (i : ℕ)
      → IsTable t
      → 0 < t.size
      → count q (bucket (move_chain c t) i) ≤ count q (bucket t i) + count q c
  unfolding move_chain count
  count-move_chain [] t q i v pos = omega arith
  count-move_chain (e ∷ c) t q i v pos =
      let ih =
        count-move_chain c (push_entry t e) q i (push_entry-IsTable t e v pos)
          (unfold push_entry in pos) in
      omega (arith, ih, count-push_entry t e q i v pos)

  pub no_table-IsTable : IsTable no_table
  unfolding count total
  no_table-IsTable = record { sized = refl; masked = refl; counted = refl; placed = λ i q ne. refl }

  -- A chain that is emptied.
  pub clear-IsTable :
      (t : Table K V) (j : ℕ)
      → IsTable t
      → j < length t.buckets
      → IsTable (record t { buckets = set t.buckets j []; used = t.used - length (bucket t j) })
  unfolding count
  clear-IsTable t j v lt = record {
    sized = length-set t.buckets j [] ∙ v.sized;
    masked = v.masked;
    counted = omega (arith, v.counted, total-set t.buckets j [] lt);
    placed = λ i q ne. ground (arith, get_or-set t.buckets j i [] lt, v.placed i q);
  }
