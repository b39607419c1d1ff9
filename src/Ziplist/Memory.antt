-- ===== src/Ziplist/Memory.antt =====
-- Reads and writes of a buffer that is put together from parts, for ziplist.c.
use project.Prelude.{
  ℕ, zero, suc, ◌+◌, ◌≡◌, refl, ◌∙◌, ap, some, List, [], ◌∷◌, ◌++◌, length, length-append, take,
  drop, get_elem?, leb, true, arith,
}
use project.Rdb.{Bytes}
use project.Sds.{overlay, memcpy, realloc}
use project.Ziplist.Blob.{memmove}

pub drop_at : (pre x : Bytes) (i : ℕ) → i ≡ length pre → drop i (pre ++ x) ≡ x
drop_at [] x zero e = refl
drop_at [] x (suc i) e = absurd (omega arith)
drop_at (b ∷ pre) x zero e = absurd (omega arith)
drop_at (b ∷ pre) x (suc i) e = drop_at pre x i (omega arith)

pub take_at {ℓ} : {A : Type ℓ} (pre x : List A) (i : ℕ) → i ≡ length pre → take i (pre ++ x) ≡ pre
take_at [] x zero e = refl
take_at [] x (suc i) e = absurd (omega arith)
take_at (b ∷ pre) x zero e = absurd (omega arith)
take_at (b ∷ pre) x (suc i) e = ap (λ y. b ∷ y) (take_at pre x i (omega arith))

pub get_elem?_at :
    (pre : Bytes) (b : ℕ) (x : Bytes) (i : ℕ) → i ≡ length pre → get_elem? (pre ++ b ∷ x) i ≡ some b
get_elem?_at [] b x zero e = refl
get_elem?_at [] b x (suc i) e = absurd (omega arith)
get_elem?_at (c ∷ pre) b x zero e = absurd (omega arith)
get_elem?_at (c ∷ pre) b x (suc i) e = get_elem?_at pre b x i (omega arith)

overlay_here :
    (old post new : Bytes) → length old ≡ length new → overlay (old ++ post) 0 new ≡ new ++ post
unfolding overlay
overlay_here [] [] [] e = refl
overlay_here [] (b ∷ post) [] e = refl
overlay_here [] post (c ∷ new) e = absurd (omega arith)
overlay_here (b ∷ old) post [] e = absurd (omega arith)
overlay_here (b ∷ old) post (c ∷ new) e = ap (λ y. c ∷ y) (overlay_here old post new (omega arith))

overlay_at :
    (pre old post new : Bytes) (i : ℕ)
    → i ≡ length pre
    → length old ≡ length new
    → overlay (pre ++ (old ++ post)) i new ≡ pre ++ (new ++ post)
unfolding overlay
overlay_at [] old post new zero at e = overlay_here old post new e
overlay_at [] old post new (suc i) at e = absurd (omega arith)
overlay_at (b ∷ pre) old post new zero at e = absurd (omega arith)
overlay_at (b ∷ pre) old post new (suc i) at e =
    ap (λ y. b ∷ y) (overlay_at pre old post new i (omega arith) e)

-- memcpy over `old`, at its offset.
pub memcpy_at :
    (pre old post new : Bytes) (i : ℕ)
    → i ≡ length pre
    → length old ≡ length new
    → memcpy (pre ++ (old ++ post)) i new ≡ some (pre ++ (new ++ post))
unfolding memcpy
memcpy_at pre old post new i at e = ground (
  arith,
  length-append pre (old ++ post),
  length-append old post,
  overlay_at pre old post new i at e,
)

-- memmove of `moved`, to a place that holds `old`.
pub memmove_at :
    (zl pre old post front moved back : Bytes) (to from n : ℕ)
    → zl ≡ pre ++ (old ++ post)
    → zl ≡ front ++ (moved ++ back)
    → to ≡ length pre
    → from ≡ length front
    → n ≡ length moved
    → length old ≡ length moved
    → memmove zl to from n ≡ some (pre ++ (moved ++ post))
unfolding memmove
memmove_at zl pre old post front moved back to from n e e' at at' len same =
    let inside : leb (from + n) (length zl) ≡ true =
      ground (arith, ap length e', length-append front (moved ++ back), length-append moved back) in
    let source : take n (drop from zl) ≡ moved =
      ap (λ y. take n (drop from y)) e'
      ∙ ap (take n) (drop_at front (moved ++ back) from at')
      ∙ take_at moved back n len in
    rw (inside, source) (ap (λ y. memcpy y to moved) e ∙ memcpy_at pre old post moved to at same)

pub length-realloc_new : (junk : ℕ → ℕ) (n : ℕ) → length (realloc junk n []) ≡ n
unfolding realloc
length-realloc_new junk zero = refl
length-realloc_new junk (suc n) = ap suc (length-realloc_new junk n)

-- A buffer that grows keeps its bytes.
pub realloc_grow :
    (junk : ℕ → ℕ) (buf : Bytes) (n k : ℕ)
    → n ≡ length buf + k
    → realloc junk n buf ≡ buf ++ realloc junk k []
unfolding realloc
realloc_grow junk [] n k e = ap (λ m. realloc junk m []) (e ∙ omega arith)
realloc_grow junk (b ∷ buf) zero k e = absurd (omega arith)
realloc_grow junk (b ∷ buf) (suc n) k e = ap (λ y. b ∷ y) (realloc_grow junk buf n k (omega arith))
