-- ===== src/Sds/Buffer.antt =====
-- The invariant of a string of sds.c, and memcpy and realloc on its bytes.
use project.Prelude.{
  ℕ, zero, suc, ◌+◌, ◌^◌, ◌≤◌, ◌<◌, ◌≡◌, refl, some, [], ◌∷◌, ◌++◌, length, take, get_or, arith, ap,
  ◌∙◌, length-append,
}
use project.Sds.{Bytes, Sds, overlay, memcpy, realloc}

-- All bytes are allocated, with one more for the terminator, which is there; the sizes are those of
-- C ints that are not negative.
pub record IsSds (s : Sds) : Type 0 where
  pub allocated : length s.buf ≡ s.len + s.free + 1
  pub terminated : get_or s.buf s.len 1 ≡ 0
  pub small : s.len + s.free < 2 ^ 31

-- The string that an sds stands for.
abbrev pub content : Sds → Bytes
content s = take s.len s.buf

-- An sds in shape that stands for `x`.
pub record Holds (s : Sds) (x : Bytes) : Type 0 where
  pub valid : IsSds s
  pub reads : content s ≡ x

pub length-overlay : (buf : Bytes) (i : ℕ) (t : Bytes) → length (overlay buf i t) ≡ length buf
unfolding overlay
length-overlay [] i t = refl
length-overlay (b ∷ buf) zero [] = refl
length-overlay (b ∷ buf) zero (c ∷ t) = ap suc (length-overlay buf zero t)
length-overlay (b ∷ buf) (suc i) t = ap suc (length-overlay buf i t)

-- What stands before the bytes copied, and these.
pub take-overlay :
    (buf : Bytes) (i : ℕ) (t u : Bytes)
    → i + length (t ++ u) ≤ length buf
    → (n : ℕ) → n ≡ i + length t
    → take n (overlay buf i (t ++ u)) ≡ take i buf ++ t
unfolding overlay
take-overlay buf zero [] u h zero e = refl
take-overlay buf zero [] u h (suc n) e = absurd (omega arith)
take-overlay [] zero (c ∷ t) u h n e = absurd (omega arith)
take-overlay (b ∷ buf) zero (c ∷ t) u h zero e = absurd (omega arith)
take-overlay (b ∷ buf) zero (c ∷ t) u h (suc n) e =
    ap (λ x. c ∷ x) (take-overlay buf zero t u (omega arith) n (omega arith))
take-overlay [] (suc i) t u h n e = absurd (omega arith)
take-overlay (b ∷ buf) (suc i) t u h zero e = absurd (omega arith)
take-overlay (b ∷ buf) (suc i) t u h (suc n) e =
    ap (λ x. b ∷ x) (take-overlay buf i t u (omega arith) n (omega arith))

-- The first byte behind a copied string is the terminator.
pub get_or-overlay :
    (buf : Bytes) (i : ℕ) (t : Bytes)
    → i + length t < length buf
    → (n : ℕ) → n ≡ i + length t
    → get_or (overlay buf i (t ++ 0 ∷ [])) n 1 ≡ 0
unfolding overlay
get_or-overlay [] i t h n e = absurd (omega arith)
get_or-overlay (b ∷ buf) zero [] h zero e = refl
get_or-overlay (b ∷ buf) zero [] h (suc n) e = absurd (omega arith)
get_or-overlay (b ∷ buf) zero (c ∷ t) h zero e = absurd (omega arith)
get_or-overlay (b ∷ buf) zero (c ∷ t) h (suc n) e =
    get_or-overlay buf zero t (omega arith) n (omega arith)
get_or-overlay (b ∷ buf) (suc i) t h zero e = absurd (omega arith)
get_or-overlay (b ∷ buf) (suc i) t h (suc n) e =
    get_or-overlay buf i t (omega arith) n (omega arith)

pub length-realloc : (junk : ℕ → ℕ) (n : ℕ) (buf : Bytes) → length (realloc junk n buf) ≡ n
unfolding realloc
length-realloc junk zero buf = refl
length-realloc junk (suc n) [] = ap suc (length-realloc junk n [])
length-realloc junk (suc n) (b ∷ buf) = ap suc (length-realloc junk n buf)

pub take-realloc :
    (junk : ℕ → ℕ) (n m : ℕ) (buf : Bytes)
    → m ≤ n
    → m ≤ length buf
    → take m (realloc junk n buf) ≡ take m buf
unfolding realloc
take-realloc junk n zero buf h h' = refl
take-realloc junk n (suc m) [] h h' = absurd (omega arith)
take-realloc junk zero (suc m) (b ∷ buf) h h' = absurd (omega arith)
take-realloc junk (suc n) (suc m) (b ∷ buf) h h' =
    ap (λ x. b ∷ x) (take-realloc junk n m buf (omega arith) (omega arith))

pub get_or-realloc :
    (junk : ℕ → ℕ) (n m d : ℕ) (buf : Bytes)
    → m < n
    → m < length buf
    → get_or (realloc junk n buf) m d ≡ get_or buf m d
unfolding realloc
get_or-realloc junk n m d [] h h' = absurd (omega arith)
get_or-realloc junk zero m d (b ∷ buf) h h' = absurd (omega arith)
get_or-realloc junk (suc n) zero d (b ∷ buf) h h' = refl
get_or-realloc junk (suc n) (suc m) d (b ∷ buf) h h' =
    get_or-realloc junk n m d buf (omega arith) (omega arith)

-- A string and its terminator copied behind the first `i` bytes.
pub Holds-memcpy :
    (buf : Bytes) (i : ℕ) (t : Bytes) (free : ℕ)
    → length buf ≡ i + length t + free + 1
    → i + length t + free < 2 ^ 31
    → (buf' : Bytes) × (memcpy buf i (t ++ 0 ∷ []) ≡ some buf')
      × Holds (record { len = i + length t; free = free; buf = buf' }) (take i buf ++ t)
unfolding memcpy
Holds-memcpy buf i t free e small =
    let l = length-append t (0 ∷ []) in
    (
      overlay buf i (t ++ 0 ∷ []),
      ground (arith, l),
      record {
        valid = record {
          allocated = length-overlay buf i (t ++ 0 ∷ []) ∙ e;
          terminated = get_or-overlay buf i t (omega arith) (i + length t) refl;
          small = small;
        };
        reads = take-overlay buf i t (0 ∷ []) (omega (arith, l)) (i + length t) refl;
      },
    )
