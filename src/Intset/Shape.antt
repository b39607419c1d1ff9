-- ===== src/Intset/Shape.antt =====
-- The invariant of an intset, and what the element accesses of intset.c do to the elements.
use project.Prelude.{
  ℕ, zero, suc, ◌+◌, ◌-◌, ◌*◌, ◌≤◌, ◌<◌, ◌≡◌, refl, ◌≢◌, arith, ◌⊎◌, inl, ◌∙◌, ap,
}
use native.Mathlib.Decide.{dec_lt}
use native.Mathlib.Nat.{le_refl}
use project.Prelude.Int.{ℤ}
use project.Intset.Bytes.{
  Memory, InRange, load-store_self, load-store_apart, load-move, load-move_outside,
}
use project.Intset.{Intset, new, get, get_encoded, set, width, move_tail, upgrade_loop}
use project.Intset.Search.{IsSorted}

abbrev pub IsEncoding : ℕ → Type 0
IsEncoding e = (e ≡ 2) ⊎ (e ≡ 4) ⊎ (e ≡ 8)

-- The encoding is one of three, it holds every element, the elements ascend strictly, and the
-- allocation is exactly as large as they need.
pub record IsValid (is : Intset) : Type 0 where
  pub encoded : IsEncoding is.encoding
  pub fits : (i : ℕ) → i < is.length → InRange is.encoding (get is i)
  pub sorted : IsSorted is
  pub allocated : is.room ≡ is.length * is.encoding

abbrev pub Contains : Intset → ℤ → Type 0
Contains is v = (i : ℕ) × (i < is.length) × (get is i ≡ v)

-- `value` stands at `i` in `is'`, and the elements of `is` around it, in order.
pub record Inserted (is : Intset) (value : ℤ) (i : ℕ) (is' : Intset) : Type 0 where
  pub len : is'.length ≡ is.length + 1
  pub place : i ≤ is.length
  pub before : (j : ℕ) → j < i → get is' j ≡ get is j
  pub here : get is' i ≡ value
  pub after : (j : ℕ) → i ≤ j → j < is.length → get is' (suc j) ≡ get is j

pub width-eq : (e : ℕ) → IsEncoding e → width e ≡ e
width-eq e h = ground arith

pub width-pos : (e : ℕ) → 0 < width e
width-pos e = ground arith

slots_apart : (i j w : ℕ) → i < j → i * w + w ≤ j * w
slots_apart i j w lt = grind arith

slots_mono : (i j w : ℕ) → i ≤ j → i * w ≤ j * w
slots_mono i j w le = grind arith

slots_end : (j to n w : ℕ) → j < to + n → j * w + w ≤ to * w + n * w
slots_end j to n w lt = omega (arith, slots_apart j (to + n) w lt)

widen : (n w w' : ℕ) → w ≤ w' → n * w ≤ n * w'
widen n w w' le = grind arith

slots_wide : (i n p w w' : ℕ) → i < n → w ≤ w' → i * w + w ≤ (n + p) * w'
slots_wide i n p w w' lt le = omega (arith, slots_apart i n w lt, widen n w w' le)

slots_shift : (j from k to w : ℕ) → j + from ≡ k + to → j * w + from * w ≡ k * w + to * w
slots_shift j from k to w e = omega (arith, ap (λ (t : ℕ). t * w) e)

module _ (is : Intset) (value : ℤ) where
  pub get-set_self : (i : ℕ) → InRange (width is.encoding) value → get (set is i value) i ≡ value
  unfolding get set get_encoded
  get-set_self i r =
      load-store_self (width is.encoding) is.contents value (i * width is.encoding)
        (width-pos is.encoding) r

  -- An element of the old width lies apart from one of the new width.
  pub get_encoded-set :
      (i j enc : ℕ)
      → (j * width enc + width enc ≤ i * width is.encoding)
        ⊎ (i * width is.encoding + width is.encoding ≤ j * width enc)
      → get_encoded (set is i value) j enc ≡ get_encoded is j enc
  unfolding set get_encoded
  get_encoded-set i j enc out =
      load-store_apart (width is.encoding) is.contents value (width enc) (i * width is.encoding)
        (j * width enc) out

  set_here :
      (i : ℕ)
      → InRange (width is.encoding) value
      → get_encoded (set is i value) i is.encoding ≡ value
  unfolding set get_encoded
  set_here i r =
      load-store_self (width is.encoding) is.contents value (i * width is.encoding)
        (width-pos is.encoding) r

  get_encoded_ne :
      (i j : ℕ) → j ≢ i → get_encoded (set is i value) j is.encoding ≡ get_encoded is j is.encoding
  get_encoded_ne i j ne =
      get_encoded-set i j is.encoding
        (ground (arith, slots_apart i j (width is.encoding), slots_apart j i (width is.encoding)))

  pub get-set_ne : (i j : ℕ) → i ≢ j → get (set is i value) j ≡ get is j
  unfolding get set
  get-set_ne i j ne =
      get_encoded-set i j is.encoding
        (ground (arith, slots_apart i j (width is.encoding), slots_apart j i (width is.encoding)))

module _ (is : Intset) (from to : ℕ) where
  pub get-move_tail :
      (j k : ℕ)
      → to ≤ j
      → j + from ≡ k + to
      → k < is.length
      → get (move_tail is from to) j ≡ get is k
  unfolding get get_encoded move_tail
  get-move_tail j k lo e lt =
      let w : ℕ = width is.encoding in
      load-move w is.contents (from * w) (to * w) ((is.length - from) * w) (j * w) (k * w)
        (slots_mono to j w lo) (slots_end j to (is.length - from) w (omega arith))
        (slots_shift j from k to w e)

  pub get-move_tail_before : (j : ℕ) → j < to → get (move_tail is from to) j ≡ get is j
  unfolding get get_encoded move_tail
  get-move_tail_before j lt =
      let w : ℕ = width is.encoding in
      load-move_outside w is.contents (from * w) (to * w) ((is.length - from) * w) (j * w)
        (inl (slots_apart j to w lt))

-- The loop of the upgrade, from width `curenc` to the width of the set's new encoding: every
-- element below `n` is moved up by `p` and keeps its value, although the regions overlap.
pub get-upgrade_loop :
    (n p curenc : ℕ) (is : Intset)
    → width curenc ≤ width is.encoding
    → ((i : ℕ) → i < n → InRange (width is.encoding) (get_encoded is i curenc))
    → ((i : ℕ)
        → i < n
        → get_encoded (upgrade_loop n p curenc is) (i + p) is.encoding ≡ get_encoded is i curenc)
      × ((j : ℕ)
          → n + p ≤ j
          → get_encoded (upgrade_loop n p curenc is) j is.encoding ≡ get_encoded is j is.encoding)
unfolding upgrade_loop set
get-upgrade_loop zero p curenc is wide fits = (λ i lt. elim lt [ ], λ j le. refl)
get-upgrade_loop (suc n) p curenc is wide fits =
    let v : ℤ = get_encoded is n curenc in
    let is₁ : Intset = set is (n + p) v in
    let keep : (i : ℕ) → i < n → get_encoded is₁ i curenc ≡ get_encoded is i curenc = λ i lt.
      get_encoded-set is v (n + p) i curenc
        (inl (slots_wide i n p (width curenc) (width is.encoding) lt wide)) in
    let elsewhere : (j : ℕ)
        → j ≢ n + p
        → get_encoded is₁ j is.encoding ≡ get_encoded is j is.encoding =
      get_encoded_ne is v (n + p) in
    let (moved, rest) =
      get-upgrade_loop n p curenc is₁ wide (λ i lt. rw (keep i lt) (fits i (omega arith))) in
    (
      λ i lt. elim (dec_lt i n) [
        | yes lower ↦ moved i lower ∙ keep i lower
        | no same ↦
            let e : i ≡ n = omega arith in
            rw e (rest (n + p) (le_refl _) ∙ set_here is v (n + p) (fits n (omega arith)))
      ],
      λ j le. rest j (omega arith) ∙ elsewhere j (omega arith),
    )

-- The empty set is valid.
pub new-IsValid : (garbage : Memory) → IsValid (new garbage)
unfolding new
new-IsValid garbage = record {
  encoded = inl refl;
  fits = λ i none. elim none [ ];
  sorted = λ i j lt none. elim none [ ];
  allocated = refl;
}
