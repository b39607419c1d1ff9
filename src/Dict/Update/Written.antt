-- ===== src/Dict/Update/Written.antt =====
-- One entry of a table of dict.c changed, and what that does to the dictionary.
use project.Prelude.{
  ℕ, ◌+◌, ◌≤◌, ◌<◌, ◌≡◌, refl, ◌≢◌, true, Option, none, some, [], ◌∷◌, ◌==◌, if◌then◌else◌, length,
  set, arith, ◌∙◌, Bool-cases, length-set,
}
use project.Dict.{DictType, Chain, Table, Dict, index, bucket, find_chain, find_in, no_table}
use project.Dict.Chains.{count, find_chain-none, total-set, get_or-set}
use project.Dict.Tables.{IsTable, index-lt, index_congr}
use project.Dict.Rehash.{IsValid, Kept}
use project.Dict.Update.Entries.{count_congr, compare_congr}

module _ {ℓ} {K V : Type ℓ} ⦃type : DictType K⦄ where
  -- A table that holds no entry of a key.
  abbrev pub Absent : K → Table K V → Type ℓ
  Absent k t = (q : K) (i : ℕ) → type.compare_keys q k ≡ true → count q (bucket t i) ≡ 0

  -- A table `t'` that reads as `t` but for the key `k`, which it reads as `r`, with at most `b`
  -- entries.
  pub record Written (k : K) (r : Option V) (b : ℕ) (t t' : Table K V) : Type ℓ where
    pub table : IsTable t'
    pub size : t'.size ≡ t.size
    pub finds :
        (q : K)
        → find_chain q (bucket t' (index t' q))
          ≡ (if type.compare_keys q k then r else find_chain q (bucket t (index t q)))
    pub counts :
        (q : K) (i : ℕ)
        → count q (bucket t' i) ≤ (if type.compare_keys q k then b else count q (bucket t i))

  -- A dictionary that reads as another but for one key.
  pub record WrittenDict (k : K) (r : Option V) (d d' : Dict K V) : Type ℓ where
    pub valid : IsValid d'
    pub reads : (q : K) → find_in d' q ≡ (if type.compare_keys q k then r else find_in d q)
    pub iterators : d'.iterators ≡ d.iterators

  -- The chain of `k` replaced.
  abbrev pub relink : Table K V → K → Chain K V → ℕ → Table K V
  relink t k c n = record t { buckets = set t.buckets (index t k) c; used = n }

  module _ (t : Table K V) (k : K) (r : Option V) (b n : ℕ) (c : Chain K V) (v : IsTable t)
      (pos : 0 < t.size) (same : n + length (bucket t (index t k)) ≡ t.used + length c)
      (counts : (q : K)
        → count q c ≤ (if type.compare_keys q k then b else count q (bucket t (index t k))))
      (finds : (q : K)
        → find_chain q c
          ≡ (if type.compare_keys q k then r else find_chain q (bucket t (index t k)))) where
    new_chain : (i : ℕ) → bucket (relink t k c n) i ≡ (if index t k == i then c else bucket t i)
    new_chain i = get_or-set t.buckets (index t k) i c (index-lt t k v pos)

    relink-placed : (i : ℕ) (q : K) → index t q ≢ i → count q (bucket (relink t k c n) i) ≡ 0
    relink-placed i q ne = ground (arith, new_chain i, v.placed i q, counts q, index_congr t q k)

    relink-IsTable : IsTable (relink t k c n)
    relink-IsTable = record {
      sized = length-set t.buckets _ _ ∙ v.sized;
      masked = v.masked;
      counted =
          omega (arith, v.counted, same, total-set t.buckets (index t k) c (index-lt t k v pos));
      placed = relink-placed;
    }

    relink-counts :
        (q : K) (i : ℕ)
        → count q (bucket (relink t k c n) i)
          ≤ (if type.compare_keys q k then b else count q (bucket t i))
    relink-counts q i = ground (arith, new_chain i, counts q, v.placed i q, index_congr t q k)

    pub relink-Written : Written k r b t (relink t k c n)
    relink-Written = record {
      table = relink-IsTable;
      size = refl;
      finds = λ q. ground (arith, new_chain (index t q), finds q, index_congr t q k);
      counts = relink-counts;
    }

  Absent-none :
      (k q : K) (t : Table K V)
      → Absent k t
      → type.compare_keys q k ≡ true
      → find_chain q (bucket t (index t q)) ≡ none
  Absent-none k q t a h = find_chain-none q (bucket t (index t q)) (a q (index t q) h)

  -- The first table written.
  pub first-WrittenDict :
      (d : Dict K V) (t : Table K V) (k : K) (r : Option V) (b : ℕ)
      → IsValid d
      → b ≤ 1
      → Written k r b d.ht0 t
      → Absent k d.ht1
      → ((i : ℕ) → d.rehashidx ≡ some i → (j : ℕ) → j < i → bucket t j ≡ [])
      → WrittenDict k r d (record d { ht0 = t })
  unfolding find_in
  first-WrittenDict d t k r b v once w a clear = record {
    valid = record {
      first = w.table;
      second = v.second;
      once = λ q i j. ground (arith, w.counts q i, v.once q i j, a q j);
      idle = v.idle;
      moving = λ i e. (omega (arith, w.size, (v.moving i e).0), (v.moving i e).1);
      clear = clear;
    };
    reads = λ q. ground (arith, w.finds q, Absent-none k q d.ht1 a);
    iterators = refl;
  }

  -- The second table written, while rehashing.
  pub second-WrittenDict :
      (d : Dict K V) (t : Table K V) (k : K) (r : Option V) (b : ℕ) (x : ℕ)
      → IsValid d
      → b ≤ 1
      → d.rehashidx ≡ some x
      → Written k r b d.ht1 t
      → Absent k d.ht0
      → WrittenDict k r d (record d { ht1 = t })
  unfolding find_in
  second-WrittenDict d t k r b x v once e w a = record {
    valid = record {
      first = v.first;
      second = w.table;
      once = λ q i j. ground (arith, w.counts q j, v.once q i j, a q i);
      idle = λ h. cc;
      moving = λ i e'. ((v.moving i e').0, omega (arith, w.size, (v.moving i e').1));
      clear = v.clear;
    };
    reads = λ q. ground (arith, w.finds q, Absent-none k q d.ht0 a);
    iterators = refl;
  }

  -- A key that its own chain does not hold is nowhere in the table.
  pub Absent-of_chain :
      (k : K) (t : Table K V) → IsTable t → count k (bucket t (index t k)) ≡ 0 → Absent k t
  Absent-of_chain k t v h q i e = ground (
    arith,
    v.placed i q,
    index_congr t q k,
    count_congr q k (bucket t i),
    Bool-cases (index t q == i),
  )

  pub Absent-no_table : (k : K) (t : Table K V) → t ≡ no_table → Absent k t
  unfolding count
  Absent-no_table k t h q i e = rw h

  -- A key that one table holds is not in the other.
  pub Absent-first :
      (k : K) (d : Dict K V) (j : ℕ) → IsValid d → 0 < count k (bucket d.ht1 j) → Absent k d.ht0
  Absent-first k d j v h q i e = omega (arith, v.once k i j, count_congr q k (bucket d.ht0 i) e)

  pub Absent-second :
      (k : K) (d : Dict K V) (i : ℕ) → IsValid d → 0 < count k (bucket d.ht0 i) → Absent k d.ht1
  Absent-second k d i v h q j e = omega (arith, v.once k i j, count_congr q k (bucket d.ht1 j) e)

  -- A chain of the first table rewritten: its chain had an entry, so it is not one of those that
  -- were moved.
  pub relink_clear :
      (d : Dict K V) (k : K) (c : Chain K V) (n : ℕ)
      → IsValid d
      → 0 < d.ht0.size
      → 0 < length (bucket d.ht0 (index d.ht0 k))
      → (i : ℕ) → d.rehashidx ≡ some i
      → (j : ℕ) → j < i
      → bucket (relink d.ht0 k c n) j ≡ []
  relink_clear d k c n v pos some_entry i e j lt =
      let old : bucket d.ht0 j ≡ [] = v.clear i e j lt in
      ground
        (arith, get_or-set d.ht0.buckets (index d.ht0 k) j c (index-lt d.ht0 k v.first pos), old)

  pub Kept-WrittenDict :
      (k : K) (r : Option V) (d₁ d₂ d₃ : Dict K V)
      → Kept d₁ d₂
      → WrittenDict k r d₂ d₃
      → WrittenDict k r d₁ d₃
  Kept-WrittenDict k r d₁ d₂ d₃ kept w = record {
    valid = w.valid;
    reads = λ q. rw (← kept.reads q) (w.reads q);
    iterators = w.iterators ∙ kept.iterators;
  }

  find_chain_congr :
      (q k : K) (c : Chain K V) → type.compare_keys q k ≡ true → find_chain q c ≡ find_chain k c
  unfolding find_chain
  find_chain_congr q k [] h = refl
  find_chain_congr q k (e ∷ c) h = ground (arith, compare_congr q k e.0, find_chain_congr q k c h)

  find_in_congr :
      (q k : K) (d : Dict K V) → type.compare_keys q k ≡ true → find_in d q ≡ find_in d k
  unfolding find_in
  find_in_congr q k d h = ground (
    arith,
    index_congr d.ht0 q k,
    index_congr d.ht1 q k,
    find_chain_congr q k (bucket d.ht0 (index d.ht0 k)) h,
    find_chain_congr q k (bucket d.ht1 (index d.ht1 k)) h,
  )

  -- A dictionary where nothing changed reads its key as before.
  pub WrittenDict-of_Kept :
      (k : K) (r : Option V) (d d' : Dict K V) → Kept d d' → find_in d k ≡ r → WrittenDict k r d d'
  WrittenDict-of_Kept k r d d' kept h = record {
    valid = kept.valid;
    reads = λ q. ground (arith, kept.reads q, find_in_congr q k d);
    iterators = kept.iterators;
  }
