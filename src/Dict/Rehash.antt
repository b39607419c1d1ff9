-- ===== src/Dict/Rehash.antt =====
-- A step of rehashing in dict.c: the chain that it moves and the tables that it leaves.
use project.Prelude.{
  ℕ, ◌+◌, ◌-◌, ◌≤◌, ◌<◌, ◌≡◌, refl, ◌≢◌, Bool, true, false, none, some, List, [], leb, ◌==◌,
  if◌then◌else◌, length, set, drop, arith, ap, sym, ◌∙◌, Bool-cases, inl, inr, lt→leb, ==→ne, ==→eq,
  bit_and, length-drop,
}
use native.Mathlib.Decide.{dec_lt}
use project.Dict.{
  DictType, Chain, Dict, index, bucket, move_chain, find_chain, no_table, is_rehashing, next_chain,
  rehash_step, find_in,
}
use project.Dict.Chains.{
  count, find_chain-none, total, get_or-set, nil_of_total, total-drop, get_or-drop, Stop,
  next_chain-Stop,
}
use project.Dict.Tables.{
  IsTable, move_chain-IsTable, move_chain_fields, find_chain-move_chain, count-move_chain,
  no_table-IsTable, clear-IsTable,
}

module _ {ℓ} {K V : Type ℓ} ⦃type : DictType K⦄ where
  -- Both tables are tables, a key stands once in the two of them, the second is empty unless the
  -- dictionary is rehashing, and while it is, the chains below `rehashidx` are empty.
  pub record IsValid (d : Dict K V) : Type ℓ where
    pub first : IsTable d.ht0
    pub second : IsTable d.ht1
    pub once : (q : K) (i j : ℕ) → count q (bucket d.ht0 i) + count q (bucket d.ht1 j) ≤ 1
    pub idle : is_rehashing d ≡ false → d.ht1 ≡ no_table
    pub moving : (i : ℕ) → d.rehashidx ≡ some i → (0 < d.ht0.size) × (0 < d.ht1.size)
    pub clear : (i : ℕ) → d.rehashidx ≡ some i → (j : ℕ) → j < i → bucket d.ht0 j ≡ []

  -- The scan finds a chain with entries, at or behind `rehashidx`.
  record Next (d : Dict K V) (i j : ℕ) (c : Chain K V) : Type ℓ where
    scanned : next_chain (drop i d.ht0.buckets) i ≡ some (j, c)
    chain : bucket d.ht0 j ≡ c
    inside : j < length d.ht0.buckets
    behind : i ≤ j
    empty : (m : ℕ) → m < j → bucket d.ht0 m ≡ []

  Stop-Next :
      (d : Dict K V) (i j : ℕ) (c : Chain K V)
      → ((m : ℕ) → m < i → bucket d.ht0 m ≡ [])
      → next_chain (drop i d.ht0.buckets) i ≡ some (j, c)
      → Stop (drop i d.ht0.buckets) i j c
      → Next d i j c
  Stop-Next d i j c clear scan s =
      let bs : List (Chain K V) = d.ht0.buckets in
      record {
        scanned = scan;
        chain = rw s.at (sym (get_or-drop bs i s.offset) ∙ s.chain);
        inside = omega (arith, s.inside, s.at, length-drop i bs);
        behind = omega (arith, s.at);
        empty = λ m lt. elim (dec_lt m i) [
          | yes lo ↦ clear m lo
          | no hi ↦
              let e : m ≡ (m - i) + i = omega arith in
              rw e (sym (get_or-drop bs i (m - i)) ∙ s.clear (m - i) (omega (arith, s.at)))
        ];
      }

  Next-exists :
      (d : Dict K V) (i : ℕ)
      → IsValid d
      → d.rehashidx ≡ some i
      → d.ht0.used ≢ 0
      → (j : ℕ) × (c : Chain K V) × Next d i j c
  Next-exists d i v e ne =
      let bs : List (Chain K V) = d.ht0.buckets in
      let left : 0 < total (drop i bs) =
        omega (arith, total-drop bs i (v.clear i e), v.first.counted) in
      let r = next_chain-Stop (drop i bs) i left in
      (r.0, r.1, Stop-Next d i r.0 r.1 (v.clear i e) r.2 r.3)

  -- The dictionary after the chain at `j` is moved.
  abbrev moved : Dict K V → ℕ → Chain K V → Dict K V
  moved d j c = record d {
    ht0 = record (d.ht0) { buckets = set d.ht0.buckets j []; used = d.ht0.used - length c };
    ht1 = move_chain c d.ht1;
    rehashidx = some (j + 1);
  }

  module _ (d : Dict K V) (i j : ℕ) (c : Chain K V) (v : IsValid d) (e : d.rehashidx ≡ some i)
      (n : Next d i j c) where
    pos1 : 0 < d.ht1.size
    pos1 = (v.moving i e).1

    emptied : (x : ℕ) → bucket (moved d j c).ht0 x ≡ (if j == x then [] else bucket d.ht0 x)
    emptied x = get_or-set d.ht0.buckets j x [] n.inside

    count-chain : (q : K) → count q c + count q (bucket d.ht1 (index d.ht1 q)) ≤ 1
    count-chain q = rw (← n.chain) (v.once q j (index d.ht1 q))

    moved-once :
        (q : K) (x y : ℕ)
        → count q (bucket (moved d j c).ht0 x) + count q (bucket (moved d j c).ht1 y) ≤ 1
    unfolding count
    moved-once q x y = ground (
      arith,
      emptied x,
      count-move_chain c d.ht1 q y v.second pos1,
      v.once q x y,
      v.once q j y,
      n.chain,
      v.first.placed x q,
      v.first.placed j q,
    )

    -- Where the second table is read, it answers for the moved chain first.
    second_find :
        (q : K)
        → find_chain q (bucket (move_chain c d.ht1) (index (move_chain c d.ht1) q))
          ≡ (elim (find_chain q c) [
            | some w ↦ some w
            | none ↦ find_chain q (bucket d.ht1 (index d.ht1 q))
          ])
    second_find q =
        ap (λ m. find_chain q (bucket (move_chain c d.ht1) (bit_and (type.hash_key q) m)))
          (move_chain_fields c d.ht1).1
        ∙ find_chain-move_chain c d.ht1 q v.second pos1 (omega (arith, count-chain q))

    moved-find_in : (q : K) → find_in (moved d j c) q ≡ find_in d q
    unfolding find_in find_chain
    moved-find_in q = elim (Bool-cases (j == index d.ht0 q)) [
      | inl same ↦
          let here : bucket (moved d j c).ht0 (index d.ht0 q) ≡ [] =
            emptied (index d.ht0 q) ∙ (rw same) in
          let old : bucket d.ht0 (index d.ht0 q) ≡ c =
            ap (bucket d.ht0) (sym (==→eq j (index d.ht0 q) same)) ∙ n.chain in
          ground (arith, here, old, e, second_find q)
      | inr other ↦
          let here : bucket (moved d j c).ht0 (index d.ht0 q) ≡ bucket d.ht0 (index d.ht0 q) =
            emptied (index d.ht0 q) ∙ (rw other) in
          let gone : find_chain q c ≡ none =
            find_chain-none q c
              (rw (← n.chain) (v.first.placed j q (λ h. ==→ne j (index d.ht0 q) other (sym h)))) in
          ground (arith, here, gone, e, second_find q)
    ]

    moved_clear :
        (x m : ℕ) → some (j + 1) ≡ some x → m < x → (if j == m then [] else bucket d.ht0 m) ≡ []
    moved_clear x m h lt = elim (Bool-cases (j == m)) [
      | inl same ↦ rw same
      | inr other ↦
          let e' : j + 1 ≡ x = cc in rw other (n.empty m (let ne = ==→ne j m other in omega arith))
    ]

    moved-IsValid : IsValid (moved d j c)
    moved-IsValid = record {
      first = rw n.chain at (clear-IsTable d.ht0 j v.first n.inside);
      second = move_chain-IsTable c d.ht1 v.second pos1;
      once = moved-once;
      idle = λ h. cc;
      moving = λ x h. ((v.moving i e).0, omega (arith, pos1, (move_chain_fields c d.ht1).0));
      clear = λ x h m lt. emptied m ∙ moved_clear x m h lt;
    }

  -- With nothing left in the first table, the second takes its place.
  abbrev switched : Dict K V → Dict K V
  switched d = record d { ht0 = d.ht1; ht1 = no_table; rehashidx = none }

  module _ (d : Dict K V) (i : ℕ) (v : IsValid d) (e : d.rehashidx ≡ some i)
      (h : d.ht0.used ≡ 0) where
    all_empty : (x : ℕ) → bucket d.ht0 x ≡ []
    all_empty x = nil_of_total d.ht0.buckets x (omega (arith, v.first.counted))

    switched-find_in : (q : K) → find_in (switched d) q ≡ find_in d q
    unfolding find_in find_chain
    switched-find_in q = ground (arith, all_empty (index d.ht0 q), e)

    switched-IsValid : IsValid (switched d)
    unfolding count
    switched-IsValid = record {
      first = v.second;
      second = no_table-IsTable;
      once = λ q x y. omega (arith, v.once q 0 x);
      idle = λ idle. refl;
      moving = λ x none_left. absurd (cc);
      clear = λ x none_left. absurd (cc);
    }

  -- What a step of rehashing keeps.
  pub record Kept (d d' : Dict K V) : Type ℓ where
    pub valid : IsValid d'
    pub reads : (q : K) → find_in d' q ≡ find_in d q
    pub iterators : d'.iterators ≡ d.iterators

  moves :
      (d : Dict K V) (i : ℕ) (v : IsValid d) (e : d.rehashidx ≡ some i)
      → (d.ht0.used == 0) ≡ false
      → (j : ℕ) (c : Chain K V) → Next d i j c
      → (d' : Dict K V) × (more : Bool) × (rehash_step d i ≡ some (d', more)) × Kept d d'
  unfolding rehash_step
  moves d i v e left j c n =
      let inside : leb d.ht0.size i ≡ false =
        lt→leb i d.ht0.size (omega (arith, v.first.sized, n.inside, n.behind)) in
      (
        moved d j c,
        true,
        rw (left, inside, n.scanned),
        record {
          valid = moved-IsValid d i j c v e n;
          reads = moved-find_in d i j c v e n;
          iterators = refl;
        },
      )

  -- On a valid dictionary that is rehashing, a round meets no fault, leaves a valid dictionary,
  -- and every key is read as before.
  pub rehash_step-Kept :
      (d : Dict K V) (i : ℕ)
      → IsValid d
      → d.rehashidx ≡ some i
      → (d' : Dict K V) × (more : Bool) × (rehash_step d i ≡ some (d', more)) × Kept d d'
  unfolding rehash_step
  rehash_step-Kept d i v e = elim (Bool-cases (d.ht0.used == 0)) [
    | inl done ↦
        let h : d.ht0.used ≡ 0 = ==→eq d.ht0.used 0 done in
        (
          switched d,
          false,
          rw done,
          record {
            valid = switched-IsValid d i v e h;
            reads = switched-find_in d i v e h;
            iterators = refl;
          },
        )
    | inr left ↦
        let r = Next-exists d i v e (==→ne d.ht0.used 0 left) in moves d i v e left r.0 r.1 r.2
  ]
