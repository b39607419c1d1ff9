-- ===== src/Intset/Encoding.antt =====
-- `_intsetValueEncoding` of intset.c and the ranges of the encodings.
use project.Prelude.{ℕ, ◌*◌, ◌^◌, ◌≤◌, ◌<◌, arith, ◌⊎◌, inl, inr, ◌↔◌}
use project.Prelude.Int.{ℤ, pos, negsuc, pos_part, neg_part, ◌<ℤ◌, ◌≤ℤ◌}
use project.Intset.Bytes.{InRange}
use project.Intset.{value_encoding}
use project.Intset.Shape.{IsEncoding}

pub value_encoding-IsEncoding : (v : ℤ) → IsEncoding (value_encoding v)
unfolding value_encoding
value_encoding-IsEncoding v = ground arith

-- For a 64-bit value, an encoding is large enough exactly if the value is in its range.
pub value_encoding-le :
    (v : ℤ) (e : ℕ) → InRange 8 v → IsEncoding e → (value_encoding v ≤ e) ↔ InRange e v
unfolding value_encoding
value_encoding-le (pos n) e r (inl h) = rw h (ground arith, ground arith)
value_encoding-le (pos n) e r (inr (inl h)) = rw h (ground arith, ground arith)
value_encoding-le (pos n) e r (inr (inr h)) = rw h (ground arith, ground arith)
value_encoding-le (negsuc n) e r (inl h) = rw h (ground arith, ground arith)
value_encoding-le (negsuc n) e r (inr (inl h)) = rw h (ground arith, ground arith)
value_encoding-le (negsuc n) e r (inr (inr h)) = rw h (ground arith, ground arith)

-- The largest magnitude of an encoding.
range_at :
    (e : ℕ) (u : ℤ)
    → IsEncoding e
    → InRange e u
    → (pos_part u * 2 < 256 ^ e) × (neg_part u * 2 ≤ 256 ^ e)
range_at e (pos n) (inl h) r =
    let r' : 2 * n < 256 ^ 2 = rw h at r in rw h (omega arith, omega arith)
range_at e (pos n) (inr (inl h)) r =
    let r' : 2 * n < 256 ^ 4 = rw h at r in rw h (omega arith, omega arith)
range_at e (pos n) (inr (inr h)) r =
    let r' : 2 * n < 256 ^ 8 = rw h at r in rw h (omega arith, omega arith)
range_at e (negsuc n) (inl h) r =
    let r' : 2 * n < 256 ^ 2 = rw h at r in rw h (omega arith, omega arith)
range_at e (negsuc n) (inr (inl h)) r =
    let r' : 2 * n < 256 ^ 4 = rw h at r in rw h (omega arith, omega arith)
range_at e (negsuc n) (inr (inr h)) r =
    let r' : 2 * n < 256 ^ 8 = rw h at r in rw h (omega arith, omega arith)

-- The magnitude of a value that does not fit.
past_at :
    (e : ℕ) (v : ℤ)
    → IsEncoding e
    → e < value_encoding v
    → (256 ^ e ≤ pos_part v * 2) ⊎ (256 ^ e < neg_part v * 2)
unfolding value_encoding
past_at e v (inl h) lt = let lt' : 2 < value_encoding v = rw h at lt in rw h (ground arith)
past_at e v (inr (inl h)) lt = let lt' : 4 < value_encoding v = rw h at lt in rw h (ground arith)
past_at e v (inr (inr h)) lt = let lt' : 8 < value_encoding v = rw h at lt in absurd (ground arith)

module _ (v u : ℤ) (e : ℕ) (enc : IsEncoding e) (lt : e < value_encoding v) (r : InRange e u) where
  -- A value that does not fit lies beyond every value that does, on the side of its sign.
  pub beyond_above : pos 0 ≤ℤ v → u <ℤ v
  beyond_above nonneg = ground (arith, range_at e u enc r, past_at e v enc lt)

  pub beyond_below : v <ℤ pos 0 → v <ℤ u
  beyond_below neg = ground (arith, range_at e u enc r, past_at e v enc lt)
