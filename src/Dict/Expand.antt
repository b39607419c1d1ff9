-- ===== src/Dict/Expand.antt =====
-- `dictExpand` and `_dictExpandIfNeeded` of dict.c: a new, empty table.
use project.Prelude.{
  ℕ, zero, suc, ◌*◌, ◌≤◌, ◌<◌, ◌≡◌, refl, Bool, false, some, List, [], ◌∷◌, leb, ltb, ◌==◌,
  if◌then◌else◌, length, get_or, length-replicate, arith, sym, ◌∙◌, Bool-cases, inl, inr, replicate,
  ==→eq, ◌||◌, ◌&&◌, ◌/◌, Option-cases,
}
use project.Dict.{
  DictType, Chain, Dict, index, bucket, find_chain, is_rehashing, find_in, expand, empty_table,
  next_power, expand_if_needed, next_power_loop, initial_size,
}
use project.Dict.Chains.{count, total}
use project.Dict.Tables.{IsTable}
use project.Dict.Rehash.{IsValid, Kept}
use project.Dict.Find.{find_in-none, Kept-refl}

total-replicate {ℓ} : (A : Type ℓ) (n : ℕ) → total {A = A} (replicate n []) ≡ 0
unfolding total
total-replicate A zero = refl
total-replicate A (suc n) = omega (arith, total-replicate A n)

module _ {ℓ} {A : Type ℓ} where
  get_or-replicate : (n i : ℕ) (a : A) → get_or (replicate n a) i a ≡ a
  get_or-replicate zero i a = refl
  get_or-replicate (suc n) zero a = refl
  get_or-replicate (suc n) (suc i) a = get_or-replicate n i a

module _ {ℓ} {A : Type ℓ} where
  total_of_length : (bs : List (List A)) → length bs ≡ 0 → total bs ≡ 0
  unfolding total
  total_of_length [] h = refl
  total_of_length (b ∷ bs) h = absurd (omega arith)

next_power_loop-pos : (n i size : ℕ) → 0 < i → 0 < next_power_loop n i size
unfolding next_power_loop
next_power_loop-pos zero i size pos = pos
next_power_loop-pos (suc n) i size pos = ground (arith, next_power_loop-pos n (i * 2) size)

next_power-pos : (size : ℕ) → 0 < next_power size
unfolding next_power
next_power-pos size = ground (arith, next_power_loop-pos 62 initial_size size)

module _ {ℓ} {K V : Type ℓ} ⦃type : DictType K⦄ where
  empty_bucket : (n i : ℕ) → bucket (empty_table {K = K} {V = V} n) i ≡ []
  unfolding empty_table
  empty_bucket n i = get_or-replicate n i []

  empty_table-IsTable : (n : ℕ) → IsTable (empty_table {K = K} {V = V} n)
  unfolding empty_table count
  empty_table-IsTable n = record {
    sized = length-replicate n [];
    masked = refl;
    counted = sym (total-replicate (K × V) n);
    placed = λ i q ne. rw (get_or-replicate {A = Chain K V} n i []);
  }

  -- The new table is the first one.
  first-Kept :
      (d : Dict K V) (n : ℕ)
      → IsValid d
      → is_rehashing d ≡ false
      → d.ht0.size ≡ 0
      → Kept d (record d { ht0 = empty_table n })
  unfolding count find_in find_chain
  first-Kept d n v idle no_size = record {
    valid = record {
      first = empty_table-IsTable n;
      second = v.second;
      once = λ q i j. rw (empty_bucket n i) (omega (arith, v.once q i j));
      idle = v.idle;
      moving = λ i e. absurd (let pos = (v.moving i e).0 in omega arith);
      clear = λ i e j lt. empty_bucket n j;
    };
    reads = λ q. ground (
      arith,
      find_in-none d q v no_size,
      empty_bucket n (index (empty_table {K = K} {V = V} n) q),
    );
    iterators = refl;
  }

  -- The new table is the second one.
  second-Kept :
      (d : Dict K V) (n : ℕ)
      → IsValid d
      → is_rehashing d ≡ false
      → 0 < d.ht0.size
      → 0 < n
      → Kept d (record d { ht1 = empty_table n; rehashidx = some 0 })
  unfolding count find_in find_chain
  second-Kept d n v idle some_size pos = record {
    valid = record {
      first = v.first;
      second = empty_table-IsTable n;
      once = λ q i j. rw (empty_bucket n j) (omega (arith, v.once q i j));
      idle = λ h. cc;
      moving = λ i e. (some_size, unfold empty_table in pos);
      clear = λ i e j lt. absurd (let z : 0 ≡ i = cc in omega arith);
    };
    reads = λ q. ground (arith, empty_bucket n (index (empty_table {K = K} {V = V} n) q));
    iterators = refl;
  }

  -- `expand` on a valid dictionary that is not rehashing and has room for its entries makes a new
  -- table, has one of at least one chain, and leaves a valid dictionary in which every key is read as
  -- before.
  pub expand-Kept :
      (d : Dict K V) (size : ℕ)
      → IsValid d
      → is_rehashing d ≡ false
      → d.ht0.used ≤ size
      → (d' : Dict K V) × (expand d size ≡ some d') × Kept d d' × (0 < d'.ht0.size)
  unfolding expand
  expand-Kept d size v idle room = elim (Bool-cases (d.ht0.size == 0)) [
    | inl none_yet ↦ (
      record d { ht0 = empty_table (next_power size) },
      ground (arith, idle, none_yet),
      first-Kept d (next_power size) v idle (==→eq d.ht0.size 0 none_yet),
      unfold empty_table in next_power-pos size,
    )
    | inr table ↦
        let pos : 0 < d.ht0.size = ground arith in
        (
          record d { ht1 = empty_table (next_power size); rehashidx = some 0 },
          ground (arith, idle, table),
          second-Kept d (next_power size) v idle pos (next_power-pos size),
          pos,
        )
  ]

  used_none : (d : Dict K V) → IsValid d → d.ht0.size ≡ 0 → d.ht0.used ≡ 0
  used_none d v h = v.first.counted ∙ total_of_length d.ht0.buckets (v.first.sized ∙ h)

  abbrev is_full : Bool → Dict K V → Bool
  is_full can_resize d =
      leb d.ht0.size d.ht0.used && (can_resize || ltb 5 (d.ht0.used / d.ht0.size))

  abbrev doubled : Dict K V → ℕ
  doubled d = (if ltb d.ht0.used d.ht0.size then d.ht0.size else d.ht0.used) * 2

  doubled-le : (d : Dict K V) → d.ht0.used ≤ doubled d
  doubled-le d = ground arith

  -- `expand_if_needed` succeeds on a valid dictionary whether or not resizing is allowed, leaves a
  -- table to put keys in and a valid dictionary, and
  -- every key is read as before.
  pub expand_if_needed-Kept :
      (can_resize : Bool) (d : Dict K V)
      → IsValid d
      → (d' : Dict K V) × (expand_if_needed can_resize d ≡ some d') × Kept d d' × (0 < d'.ht0.size)
  unfolding expand_if_needed
  expand_if_needed-Kept can_resize d v = elim (Option-cases d.rehashidx) [
    | inr (i, e) ↦ (d, rw e, Kept-refl d v, (v.moving i e).0)
    | inl idle ↦
        let still : is_rehashing d ≡ false = rw idle in
        elim (Bool-cases (d.ht0.size == 0)) [
          | inl none_yet ↦
              let empty : d.ht0.used ≡ 0 = used_none d v (==→eq d.ht0.size 0 none_yet) in
              let (d', e, k, p) = expand-Kept d initial_size v still (omega arith) in
              let grow : expand_if_needed can_resize d ≡ expand d initial_size =
                rw (still, none_yet) in
              (d', grow ∙ e, k, p)
          | inr table ↦ elim (Bool-cases (is_full can_resize d)) [
            | inl full ↦
                let (d', e, k, p) = expand-Kept d (doubled d) v still (doubled-le d) in
                let grow : expand_if_needed can_resize d ≡ expand d (doubled d) =
                  rw (still, table, full) in
                (d', grow ∙ e, k, p)
            | inr roomy ↦ (d, rw (still, table, roomy), Kept-refl d v, ground arith)
          ]
        ]
  ]
