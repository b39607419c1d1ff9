-- ===== src/Dict/Update/Entries.antt =====
-- What `set_chain` does to a chain of dict.c.
use project.Prelude.{
  ℕ, ◌≤◌, ◌<◌, ◌≡◌, refl, true, Option, none, some, [], ◌∷◌, if◌then◌else◌, length, arith,
  Bool-cases, inl, inr, Option-cases,
}
use project.Dict.{DictType, Chain, find_chain}
use project.Dict.Chains.{count}
use project.Dict.Update.{set_chain}

module _ {ℓ} {K : Type ℓ} ⦃type : DictType K⦄ where
  -- Keys that compare as equal compare alike with all others.
  pub compare_congr :
      (q k a : K) → type.compare_keys q k ≡ true → type.compare_keys q a ≡ type.compare_keys k a
  compare_congr q k a h =
      ground (arith, type.compare_trans k q a, type.compare_trans q k a, type.compare_symm q k)

module _ {ℓ} {K V : Type ℓ} ⦃type : DictType K⦄ where
  pub count_congr : (q k : K) (c : Chain K V) → type.compare_keys q k ≡ true → count q c ≡ count k c
  unfolding count
  count_congr q k [] h = refl
  count_congr q k (e ∷ c) h = ground (arith, compare_congr q k e.0, count_congr q k c h)

  pub count-none : (q : K) (c : Chain K V) → find_chain q c ≡ none → count q c ≡ 0
  unfolding count find_chain
  count-none q [] h = refl
  count-none q (e ∷ c) h = ground (arith, count-none q c)

  -- What a chain `c'` is to `c` when the entry of `k` got the value `r`.
  pub record Rewritten (k : K) (r : Option V) (b : ℕ) (c c' : Chain K V) : Type ℓ where
    pub found : 0 < count k c
    pub counts : (q : K) → count q c' ≤ (if type.compare_keys q k then b else count q c)
    pub finds : (q : K) → find_chain q c' ≡ (if type.compare_keys q k then r else find_chain q c)
    pub nonempty : 0 < length c

  pub set_chain-none : (k : K) (v : V) (c : Chain K V) → set_chain k v c ≡ none → count k c ≡ 0
  unfolding set_chain count
  set_chain-none k v [] h = refl
  set_chain-none k v (e ∷ c) h = ground (arith, set_chain-none k v c)

  pub length-set_chain :
      (k : K) (v : V) (c c' : Chain K V) → set_chain k v c ≡ some c' → length c' ≡ length c
  unfolding set_chain
  length-set_chain k v [] c' h = absurd (cc)
  length-set_chain k v (e ∷ c) c' h = elim (Bool-cases (type.compare_keys k e.0)) [
    | inl here ↦ ground arith
    | inr further ↦ elim (Option-cases (set_chain k v c)) [
      | inl none_left ↦ ground arith
      | inr (c₁, e₁) ↦ ground (arith, length-set_chain k v c c₁ e₁)
    ]
  ]

  count-set_chain :
      (k : K) (v : V) (c c' : Chain K V) (q : K)
      → set_chain k v c ≡ some c'
      → count q c' ≡ count q c
  unfolding set_chain count
  count-set_chain k v [] c' q h = absurd (cc)
  count-set_chain k v (e ∷ c) c' q h = elim (Bool-cases (type.compare_keys k e.0)) [
    | inl here ↦ ground arith
    | inr further ↦ elim (Option-cases (set_chain k v c)) [
      | inl none_left ↦ ground arith
      | inr (c₁, e₁) ↦ ground (arith, count-set_chain k v c c₁ q e₁)
    ]
  ]

  find_chain-set_chain :
      (k : K) (v : V) (c c' : Chain K V) (q : K)
      → set_chain k v c ≡ some c'
      → find_chain q c' ≡ (if type.compare_keys q k then some v else find_chain q c)
  unfolding set_chain find_chain
  find_chain-set_chain k v [] c' q h = absurd (cc)
  find_chain-set_chain k v (e ∷ c) c' q h = elim (Bool-cases (type.compare_keys k e.0)) [
    | inl here ↦
        ground (arith, compare_congr q k e.0, type.compare_trans q e.0 k, type.compare_symm k e.0)
    | inr further ↦ elim (Option-cases (set_chain k v c)) [
      | inl none_left ↦ ground arith
      | inr (c₁, e₁) ↦ ground (arith, find_chain-set_chain k v c c₁ q e₁, compare_congr q k e.0)
    ]
  ]

  count-set_chain-pos :
      (k : K) (v : V) (c c' : Chain K V) → set_chain k v c ≡ some c' → 0 < count k c
  unfolding set_chain count
  count-set_chain-pos k v [] c' h = absurd (cc)
  count-set_chain-pos k v (e ∷ c) c' h = elim (Bool-cases (type.compare_keys k e.0)) [
    | inl here ↦ ground arith
    | inr further ↦ elim (Option-cases (set_chain k v c)) [
      | inl none_left ↦ ground arith
      | inr (c₁, e₁) ↦ ground (arith, count-set_chain-pos k v c c₁ e₁)
    ]
  ]

  length-pos : (k : K) (c : Chain K V) → 0 < count k c → 0 < length c
  unfolding count
  length-pos k [] h = h
  length-pos k (e ∷ c) h = omega arith

  pub set_chain-Rewritten :
      (k : K) (v : V) (c c' : Chain K V)
      → count k c ≤ 1
      → set_chain k v c ≡ some c'
      → Rewritten k (some v) 1 c c'
  set_chain-Rewritten k v c c' once h = record {
    found = count-set_chain-pos k v c c' h;
    counts = λ q. ground (arith, count-set_chain k v c c' q h, count_congr q k c);
    finds = λ q. find_chain-set_chain k v c c' q h;
    nonempty = length-pos k c (count-set_chain-pos k v c c' h);
  }
