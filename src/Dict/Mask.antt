-- ===== src/Dict/Mask.antt =====
-- Masking a hash with `sizemask`, in dict.c.
use Prim.Native.Nat.{digits, bit_and-bitwise}
use project.Prelude.{ℕ, zero, suc, ◌/◌, ◌≤◌, min, bit_and, arith}

masked_digits : (n a b : ℕ) → digits (λ _. 0) min n a b ≤ b
masked_digits zero a b = omega arith
masked_digits (suc n) zero b = omega arith
masked_digits (suc n) (suc a) b = omega (arith, masked_digits n (suc a / 2) (b / 2))

pub bit_and-le_right : (a b : ℕ) → bit_and a b ≤ b
bit_and-le_right a b = rw (bit_and-bitwise a b) (masked_digits a a b)
