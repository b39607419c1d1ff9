-- ===== src/Dict/Chains.antt =====
-- Chains of dict.c: counting the entries of a key, and the sizes of vectors of chains.
use project.Prelude.{
  ℕ, zero, suc, ◌+◌, ◌<◌, ◌≡◌, refl, none, some, List, [], ◌∷◌, ◌++◌, ◌==◌, if◌then◌else◌, length,
  get_or, set, drop, arith, ap,
}
use project.Dict.{DictType, Chain, find_chain, next_chain}

module _ {ℓ} {K V : Type ℓ} ⦃type : DictType K⦄ where
  unfoldable pub count : K → Chain K V → ℕ
  count q [] = 0
  count q (e ∷ c) = (if type.compare_keys q e.0 then 1 else 0) + count q c

  pub find_chain-none : (q : K) (c : Chain K V) → count q c ≡ 0 → find_chain q c ≡ none
  unfolding count find_chain
  find_chain-none q [] h = refl
  find_chain-none q (e ∷ c) h = ground (arith, find_chain-none q c)

module _ {ℓ} {A : Type ℓ} where
  -- The number of entries of a vector of chains.
  unfoldable pub total : List (List A) → ℕ
  total [] = 0
  total (c ∷ bs) = length c + total bs

  pub total-set :
      (bs : List (List A)) (i : ℕ) (c : List A)
      → i < length bs
      → total (set bs i c) + length (get_or bs i []) ≡ total bs + length c
  unfolding total
  total-set [] i c lt = absurd (omega arith)
  total-set (b ∷ bs) zero c lt = omega arith
  total-set (b ∷ bs) (suc i) c lt = omega (arith, total-set bs i c (omega arith))

  pub get_or-set :
      (bs : List (List A)) (i j : ℕ) (c : List A)
      → i < length bs
      → get_or (set bs i c) j [] ≡ (if i == j then c else get_or bs j [])
  get_or-set [] i j c lt = absurd (omega arith)
  get_or-set (b ∷ bs) zero zero c lt = refl
  get_or-set (b ∷ bs) zero (suc j) c lt = ground arith
  get_or-set (b ∷ bs) (suc i) zero c lt = ground arith
  get_or-set (b ∷ bs) (suc i) (suc j) c lt = ground (arith, get_or-set bs i j c)

  pub nil_of_total : (bs : List (List A)) (i : ℕ) → total bs ≡ 0 → get_or bs i [] ≡ []
  unfolding total
  nil_of_total [] i h = refl
  nil_of_total ([] ∷ bs) zero h = refl
  nil_of_total ((a ∷ c) ∷ bs) zero h = absurd (omega arith)
  nil_of_total (c ∷ bs) (suc i) h = nil_of_total bs i (omega arith)

  pub nil_of_length : (bs : List (List A)) (i : ℕ) → length bs ≡ 0 → get_or bs i [] ≡ []
  nil_of_length [] i h = refl
  nil_of_length (b ∷ bs) i h = absurd (omega arith)

  pub total-drop :
      (bs : List (List A)) (i : ℕ)
      → ((j : ℕ) → j < i → get_or bs j [] ≡ [])
      → total (drop i bs) ≡ total bs
  unfolding total
  total-drop bs zero clear = refl
  total-drop [] (suc i) clear = refl
  total-drop (b ∷ bs) (suc i) clear =
      let none_here : length b ≡ 0 = ground (arith, clear 0 (omega arith)) in
      omega (arith, total-drop bs i (λ j lt. clear (suc j) (omega arith)))

  pub get_or-drop : (bs : List (List A)) (i k : ℕ) → get_or (drop i bs) k [] ≡ get_or bs (k + i) []
  get_or-drop bs zero k = ap (λ n. get_or bs n []) (omega arith)
  get_or-drop [] (suc i) k = refl
  get_or-drop (b ∷ bs) (suc i) k =
      let e : k + suc i ≡ suc (k + i) = omega arith in rw e (get_or-drop bs i k)

module _ {ℓ} {K V : Type ℓ} where
  -- The chain that the scan stops at.
  pub record Stop (bs : List (Chain K V)) (i j : ℕ) (c : Chain K V) : Type ℓ where
    pub offset : ℕ
    pub at : j ≡ offset + i
    pub chain : get_or bs offset [] ≡ c
    pub some_entry : 0 < length c
    pub inside : offset < length bs
    pub clear : (m : ℕ) → m < offset → get_or bs m [] ≡ []

  -- Where an entry is left, the scan stops at the first chain that is not empty.
  pub next_chain-Stop :
      (bs : List (Chain K V)) (i : ℕ)
      → 0 < total bs
      → (j : ℕ) × (c : Chain K V) × (next_chain bs i ≡ some (j, c)) × Stop bs i j c
  unfolding next_chain total
  next_chain-Stop [] i some_left = absurd (omega arith)
  next_chain-Stop ([] ∷ bs) i some_left =
      let (j, c, e, s) = next_chain-Stop bs (i + 1) (omega arith) in
      (
        j,
        c,
        e,
        record {
          offset = suc s.offset;
          at = omega (arith, s.at);
          chain = s.chain;
          some_entry = s.some_entry;
          inside = omega (arith, s.inside);
          clear = elim [ zero ↦ λ lt. refl | suc m ↦ λ lt. s.clear m (omega arith) ];
        },
      )
  next_chain-Stop ((e ∷ c) ∷ bs) i some_left = (
    i,
    e ∷ c,
    refl,
    record {
      offset = 0;
      at = omega arith;
      chain = refl;
      some_entry = omega arith;
      inside = omega arith;
      clear = λ m lt. elim lt [ ];
    },
  )

module _ {ℓ} {K V : Type ℓ} where
  -- The entries of a vector of chains, in the order of the chains.
  unfoldable pub entries : List (Chain K V) → Chain K V
  entries [] = []
  entries (c ∷ bs) = c ++ entries bs
