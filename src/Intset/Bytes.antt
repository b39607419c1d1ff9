-- ===== src/Intset/Bytes.antt =====
-- Integers as little-endian bytes in two's complement, and memmove.
use project.Prelude.{
  ℕ, zero, suc, ◌+◌, ◌-◌, ◌*◌, ◌/◌, ◌%◌, ◌^◌, ◌≤◌, ◌<◌, ◌≡◌, refl, false, ◌&&◌, ltb, leb, le→ltb,
  ◌==◌, if◌then◌else◌, arith, ◌⊎◌, ◌∙◌, ap,
}
use native.Mathlib.Nat.{mod-eq_of_lt, mod-lt}
use project.Prelude.Int.{ℤ, pos, negsuc}

abbrev pub Memory : Type 0
Memory = ℕ → ℕ

pub load_bytes : ℕ → Memory → ℕ → ℕ
load_bytes zero m a = 0
load_bytes (suc w) m a = m a + 256 * load_bytes w m (a + 1)

pub store_bytes : ℕ → Memory → ℕ → ℕ → Memory
store_bytes zero m a v = m
store_bytes (suc w) m a v = store_bytes w (λ b. if b == a then v % 256 else m b) (a + 1) (v / 256)

-- The bit pattern of an integer of `w` bytes, and the integer of a bit pattern.
unfoldable pub to_bits : ℕ → ℤ → ℕ
to_bits w (pos n) = n % 256 ^ w
to_bits w (negsuc n) = 256 ^ w - 1 - n % 256 ^ w

unfoldable pub of_bits : ℕ → ℕ → ℤ
of_bits w b = if ltb (2 * b) (256 ^ w) then pos b else negsuc (256 ^ w - 1 - b)

unfoldable pub load : ℕ → Memory → ℕ → ℤ
unfolding load_bytes of_bits
load w m a = of_bits w (load_bytes w m a)

unfoldable pub store : ℕ → Memory → ℕ → ℤ → Memory
unfolding store_bytes to_bits
store w m a v = store_bytes w m a (to_bits w v)

-- memmove(base + to, base + from, bytes)
unfoldable pub move : Memory → ℕ → ℕ → ℕ → Memory
move m from to bytes b = if leb to b && ltb b (to + bytes) then m (b - to + from) else m b

pub store_bytes_outside :
    (w : ℕ) (m : Memory) (a v b : ℕ) → (b < a) ⊎ (a + w ≤ b) → store_bytes w m a v b ≡ m b
unfolding store_bytes
store_bytes_outside zero m a v b out = refl
store_bytes_outside (suc w) m a v b out =
    store_bytes_outside w _ (a + 1) (v / 256) b (omega arith) ∙ ground arith

-- A load reads `w` bytes, wherever they lie.
pub load_bytes_congr :
    (w : ℕ) (m m' : Memory) (a a' : ℕ)
    → ((k : ℕ) → k < w → m (a + k) ≡ m' (a' + k))
    → load_bytes w m a ≡ load_bytes w m' a'
unfolding load_bytes
load_bytes_congr zero m m' a a' same = refl
load_bytes_congr (suc w) m m' a a' same =
    let e : a + 0 ≡ a = omega arith in
    let e' : a' + 0 ≡ a' = omega arith in
    let here : m a ≡ m' a' = rw (e, e') at (same 0 (omega arith)) in
    let shift : (x k : ℕ) → x + 1 + k ≡ x + suc k = λ x k. omega arith in
    rw (
      here,
      load_bytes_congr w m m' (a + 1) (a' + 1)
          (λ k lt. rw (shift a k, shift a' k) (same (suc k) (omega arith))),
    )

pub load_bytes-store_self :
    (w : ℕ) (m : Memory) (a v : ℕ) → v < 256 ^ w → load_bytes w (store_bytes w m a v) a ≡ v
unfolding load_bytes store_bytes
load_bytes-store_self zero m a v lt = omega arith
load_bytes-store_self (suc w) m a v lt =
    let m' : Memory = λ b. if b == a then v % 256 else m b in
    let here : store_bytes w m' (a + 1) (v / 256) a ≡ v % 256 =
      store_bytes_outside w m' (a + 1) (v / 256) a (omega arith) ∙ ground arith in
    let rest = load_bytes-store_self w m' (a + 1) (v / 256) (omega arith) in omega arith

-- The integers that `w` bytes hold.
abbrev pub InRange : ℕ → ℤ → Type 0
InRange w (pos n) = 2 * n < 256 ^ w
InRange w (negsuc n) = 2 * n < 256 ^ w

pub of_bits-to_bits : (w : ℕ) (v : ℤ) → 0 < w → InRange w v → of_bits w (to_bits w v) ≡ v
unfolding of_bits to_bits
of_bits-to_bits zero v some_byte r = absurd (omega arith)
of_bits-to_bits (suc w) (pos n) some_byte r =
    let keep : n % 256 ^ suc w ≡ n = mod-eq_of_lt (omega arith) in rw keep (ground arith)
of_bits-to_bits (suc w) (negsuc n) some_byte r =
    let keep : n % 256 ^ suc w ≡ n = mod-eq_of_lt (omega arith) in
    let high : ltb (2 * (256 ^ suc w - 1 - n)) (256 ^ suc w) ≡ false = le→ltb _ _ (omega arith) in
    rw (keep, high) (ap negsuc (omega arith))

pub to_bits-lt : (w : ℕ) (v : ℤ) → InRange w v → to_bits w v < 256 ^ w
unfolding to_bits
to_bits-lt w (pos n) r = mod-lt _ (omega arith)
to_bits-lt w (negsuc n) r = omega arith

module _ (w : ℕ) (m : Memory) (v : ℤ) where
  pub load-store_self : (a : ℕ) → 0 < w → InRange w v → load w (store w m a v) a ≡ v
  unfolding load store
  load-store_self a some_byte r =
      rw (load_bytes-store_self w m a (to_bits w v) (to_bits-lt w v r))
        (of_bits-to_bits w v some_byte r)

  -- An element stays as it is when another one is written, also of another width.
  pub load-store_apart :
      (w' a b : ℕ) → (b + w' ≤ a) ⊎ (a + w ≤ b) → load w' (store w m a v) b ≡ load w' m b
  unfolding load store
  load-store_apart w' a b out = ap (of_bits w') (
      load_bytes_congr w' _ m b b
        (λ k lt. store_bytes_outside w m a (to_bits w v) (b + k) (omega arith)))

-- memmove: what is loaded from the destination is what stood in the source.
module _ (w : ℕ) (m : Memory) (from to bytes : ℕ) where
  pub load-move :
      (a b : ℕ)
      → to ≤ a
      → a + w ≤ to + bytes
      → a + from ≡ b + to
      → load w (move m from to bytes) a ≡ load w m b
  unfolding load move
  load-move a b lo hi e = ap (of_bits w) (
      load_bytes_congr w _ m a b
        (λ k lt. let back : a + k - to + from ≡ b + k = omega arith in ground (arith, ap m back)))

  pub load-move_outside :
      (a : ℕ) → (a + w ≤ to) ⊎ (to + bytes ≤ a) → load w (move m from to bytes) a ≡ load w m a
  unfolding load move
  load-move_outside a out = ap (of_bits w) (load_bytes_congr w _ m a a (λ k lt. ground arith))
