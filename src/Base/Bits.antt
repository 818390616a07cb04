-- ===== src/Base/Bits.antt =====
-- Bounds of the bit operations.
use Prim.Native.Nat.{ℕ, zero, suc, ◌/◌, ◌≤◌, bit_and, bit_and-bitwise, digits, min}
use native.Mathlib.Omega.{arith}

and_digits-le : (n a b : ℕ) → digits (λ b. zero) min n a b ≤ b
and_digits-le zero a b = omega arith
and_digits-le (suc n) zero b = omega arith
and_digits-le (suc n) (suc a) b = omega (arith, and_digits-le n (suc a / 2) (b / 2))

pub bit_and-le : (a b : ℕ) → bit_and a b ≤ b
bit_and-le a b = let h = and_digits-le a a b in rw (bit_and-bitwise a b) h
