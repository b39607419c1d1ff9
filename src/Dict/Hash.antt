-- ===== src/Dict/Hash.antt =====
-- The hash functions of dict.c on 32-bit words. A key is the list of its bytes; the seed is the
-- global dict_hash_function_seed.
use project.Prelude.{
  ℕ, ◌+◌, ◌-◌, ◌*◌, ◌/◌, ◌%◌, ◌^◌, ◌≡◌, refl, List, [], ◌∷◌, map, length, bit_xor, arith, ap, ◌∙◌,
  sym,
}
use project.Util.{tolower}

-- A word without the bits above the 32nd, and its complement.
abbrev word : ℕ → ℕ
word n = n % 2 ^ 32

abbrev complement : ℕ → ℕ
complement n = 2 ^ 32 - 1 - n

-- dictIntHashFunction.
pub int_hash : ℕ → ℕ
int_hash key =
    let k₁ = word (key + complement (word (key * 2 ^ 15))) in
    let k₂ = bit_xor k₁ (k₁ / 2 ^ 10) in
    let k₃ = word (k₂ + word (k₂ * 2 ^ 3)) in
    let k₄ = bit_xor k₃ (k₃ / 2 ^ 6) in
    let k₅ = word (k₄ + complement (word (k₄ * 2 ^ 11))) in bit_xor k₅ (k₅ / 2 ^ 16)

-- The constant `m` of dictGenHashFunction.
abbrev pub mix : ℕ
mix = 0x5bd1e995

-- The rounds of four bytes, and the last few bytes, whose bits do not overlap.
pub mix_loop : ℕ → List ℕ → ℕ
mix_loop h (b₀ ∷ b₁ ∷ b₂ ∷ b₃ ∷ rest) =
    let k = word ((b₀ + b₁ * 2 ^ 8 + b₂ * 2 ^ 16 + b₃ * 2 ^ 24) * mix) in
    let k' = word (bit_xor k (k / 2 ^ 24) * mix) in mix_loop (bit_xor (word (h * mix)) k') rest
mix_loop h (b₀ ∷ b₁ ∷ b₂ ∷ []) =
    word (bit_xor (bit_xor (bit_xor h (b₂ * 2 ^ 16)) (b₁ * 2 ^ 8)) b₀ * mix)
mix_loop h (b₀ ∷ b₁ ∷ []) = word (bit_xor (bit_xor h (b₁ * 2 ^ 8)) b₀ * mix)
mix_loop h (b₀ ∷ []) = word (bit_xor h b₀ * mix)
mix_loop h [] = h

-- dictGenHashFunction.
pub gen_hash : ℕ → List ℕ → ℕ
unfolding mix_loop
gen_hash seed key =
    let h₁ = mix_loop (bit_xor seed (word (length key))) key in
    let h₂ = word (bit_xor h₁ (h₁ / 2 ^ 13) * mix) in bit_xor h₂ (h₂ / 2 ^ 15)

-- The loop of dictGenCaseHashFunction: hash * 33 + c.
pub case_loop : ℕ → List ℕ → ℕ
case_loop hash [] = hash
case_loop hash (c ∷ buf) = case_loop (word (word (hash * 2 ^ 5) + hash + tolower c)) buf

-- dictGenCaseHashFunction.
pub gen_case_hash : ℕ → List ℕ → ℕ
unfolding case_loop
gen_case_hash seed buf = case_loop seed buf

tolower_idem : (c : ℕ) → tolower (tolower c) ≡ tolower c
unfolding tolower
tolower_idem c = ground arith

case_loop-tolower :
    (buf : List ℕ) (hash : ℕ) → case_loop hash (map tolower buf) ≡ case_loop hash buf
unfolding case_loop
case_loop-tolower [] hash = refl
case_loop-tolower (c ∷ buf) hash =
    ap (λ d. case_loop (word (word (hash * 2 ^ 5) + hash + d)) (map tolower buf)) (tolower_idem c)
    ∙ case_loop-tolower buf (word (word (hash * 2 ^ 5) + hash + tolower c))

-- Keys that are equal up to case have the same hash under gen_case_hash.
pub gen_case_hash_congr :
    (seed : ℕ) (a b : List ℕ)
    → map tolower a ≡ map tolower b
    → gen_case_hash seed a ≡ gen_case_hash seed b
unfolding gen_case_hash
gen_case_hash_congr seed a b e =
    sym (case_loop-tolower a seed) ∙ ap (case_loop seed) e ∙ case_loop-tolower b seed
