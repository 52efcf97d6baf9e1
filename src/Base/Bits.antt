-- ===== src/Base/Bits.antt =====
-- A fact about `bit_and` at variables, from the digit recursion that it stands for.
use Prim.Native.Nat.{ℕ, zero, suc, ◌/◌, ◌≤◌, min, bit_and, digits, bit_and-bitwise}
use native.Mathlib.Omega.{arith}

-- Digit by digit the result stays below the second number, however many digits are taken.
digits-le : (fuel value mask : ℕ) → digits (λ b. zero) min fuel value mask ≤ mask
digits-le zero value mask = omega arith
digits-le (suc fuel) zero mask = omega arith
digits-le (suc fuel) (suc value) mask = omega (arith, digits-le fuel (suc value / 2) (mask / 2))

-- A mask bounds what it lets through, whether or not it is a power of two less one.
pub bit_and-le : (value mask : ℕ) → bit_and value mask ≤ mask
bit_and-le value mask = omega (arith, bit_and-bitwise value mask, digits-le value value mask)
