-- ===== src/Intset/Search.antt =====
-- The binary search `intsetSearch` of intset.c.
use project.Prelude.{
  ℕ, zero, suc, ◌+◌, ◌-◌, ◌/◌, ◌^◌, ◌≤◌, ◌<◌, ◌≡◌, refl, ◌≢◌, Bool, true, false, ltb, ◌==◌, arith,
  ◌⊎◌, inl, inr, ◌∙◌, sym, Bool-cases,
}
use project.Prelude.Int.{ℤ, ltb_ℤ, ◌<ℤ◌, le→ltb_ℤ, eq_of_ltb_ℤ}
use project.Intset.{Intset, get, Found, search_loop, answer, search}

abbrev pub IsSorted : Intset → Type 0
IsSorted is = (i j : ℕ) → i < j → j < is.length → get is i <ℤ get is j

-- What a search says of `value`: where it stands, or where it belongs.
abbrev pub Searched : Intset → ℤ → Bool × ℕ → Type 0
Searched is value (true, i) = (i < is.length) × (get is i ≡ value)
Searched is value (false, i) =
    (i ≤ is.length)
    × ((j : ℕ) → j < i → get is j <ℤ value)
    × ((j : ℕ) → i ≤ j → j < is.length → value <ℤ get is j)

module _ (is : Intset) (value : ℤ) where
  answer-found :
      (r : Found)
      → r.mid < is.length
      → get is r.mid ≡ r.cur
      → value ≡ r.cur
      → Searched is value (answer value r)
  unfolding answer
  answer-found r lt e same =
      let low : ltb_ℤ value r.cur ≡ false = le→ltb_ℤ value r.cur (ground arith) in
      let high : ltb_ℤ r.cur value ≡ false = le→ltb_ℤ r.cur value (ground arith) in
      rw (low, high) (lt, e ∙ sym same)

  answer-missing :
      (r : Found)
      → value ≢ r.cur
      → Searched is value (false, r.min)
      → Searched is value (answer value r)
  unfolding answer
  answer-missing r ne s = elim (Bool-cases (ltb_ℤ value r.cur)) [
    | inl low ↦ rw low s
    | inr low ↦ elim (Bool-cases (ltb_ℤ r.cur value)) [
      | inl high ↦ rw (low, high) s
      | inr high ↦ absurd (ne (eq_of_ltb_ℤ value r.cur low high))
    ]
  ]

  search_loop-Searched :
      IsSorted is
      → (fuel min hi : ℕ) (last : Found) → hi < min + fuel
      → min ≤ hi
      → hi ≤ is.length
      → last.min ≡ min
      → (min < hi) ⊎ (value ≢ last.cur)
      → ((j : ℕ) → j < min → get is j <ℤ value)
      → ((j : ℕ) → hi ≤ j → j < is.length → value <ℤ get is j)
      → Searched is value (answer value (search_loop fuel is value min hi last))
  unfolding search_loop
  search_loop-Searched sorted zero min hi last f le bound e fresh below above = absurd (omega arith)
  search_loop-Searched sorted (suc fuel) min hi last f le bound e fresh below above =
      elim (Bool-cases (ltb min hi)) [
        | inr stop ↦ rw stop (
            answer-missing last (ground arith)
              (ground arith, λ j lt. below j (omega arith), λ j ge lt. above j (ground arith) lt))
        | inl go ↦
            let mid : ℕ = (min + (hi - 1)) / 2 in
            let inside : (min ≤ mid) × (mid < hi) = ground arith in
            rw go (elim (Bool-cases (ltb_ℤ (get is mid) value)) [
              | inl up ↦
                  let below' : (j : ℕ) → j < mid + 1 → get is j <ℤ value =
                    λ j lt. ground (arith, sorted j mid, up, inside.1) in
                  rw up (
                    search_loop-Searched sorted fuel (mid + 1) hi _ (omega arith) (omega arith)
                      bound refl (inr (ground arith)) below' above)
              | inr notup ↦ rw notup (elim (Bool-cases (ltb_ℤ value (get is mid))) [
                | inl down ↦
                    let above' : (j : ℕ) → mid ≤ j → j < is.length → value <ℤ get is j =
                      λ j ge lt. ground (arith, sorted mid j, down) in
                    rw down (
                      search_loop-Searched sorted fuel min mid _ (omega arith) (omega arith)
                        (omega arith) refl (inr (ground arith)) below above')
                | inr here ↦
                    rw here (
                      answer-found _ (omega arith) refl (eq_of_ltb_ℤ value (get is mid) here notup))
              ])
            ])
      ]

  -- The search on numbers without a bound.
  pub unbounded_search-Searched : IsSorted is → Searched is value (search is value)
  unfolding search
  unbounded_search-Searched sorted = elim (Bool-cases (is.length == 0)) [
    | inl empty ↦ rw empty (omega arith, λ j lt. elim lt [ ], λ j ge lt. absurd (ground arith))
    | inr some_elements ↦
        let top : ℕ = is.length - 1 in
        let all_below : ltb_ℤ (get is top) value ≡ true
            → (j : ℕ) → j < is.length
            → get is j <ℤ value =
          λ h j lt. ground (arith, sorted j top, h) in
        let all_above : ltb_ℤ value (get is 0) ≡ true
            → (j : ℕ) → j < is.length
            → value <ℤ get is j =
          λ h j lt. ground (arith, sorted 0 j, h) in
        rw some_elements (elim (Bool-cases (ltb_ℤ (get is top) value)) [
          | inl high ↦ rw high (omega arith, all_below high, λ j ge lt. absurd (omega arith))
          | inr high ↦ rw high (elim (Bool-cases (ltb_ℤ value (get is 0))) [
            | inl low ↦ rw low (omega arith, λ j lt. absurd (omega arith), λ j ge. all_above low j)
            | inr low ↦ rw low (
                search_loop-Searched sorted (is.length + 1) 0 is.length _ (omega arith)
                  (omega arith) (omega arith) refl (inl (ground arith))
                  (λ j lt. absurd (omega arith)) (λ j ge lt. absurd (omega arith)))
          ])
        ])
  ]

  -- On a sorted set of less than 2^30 elements, where the sum of two of the source's int indices
  -- does not overflow, the search ends, says truly whether the value is there and, if not, gives
  -- the place that keeps the set sorted.
  pub search-Searched : IsSorted is → is.length < 2 ^ 30 → Searched is value (search is value)
  search-Searched sorted small = unbounded_search-Searched sorted
