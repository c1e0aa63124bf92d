-- ===== src/Prelude/Bits.antt =====
-- The test of the lowest bit of a word, as arithmetic.
use Prim.Native.Nat.{ℕ, zero, suc, ◌/◌, ◌%◌, min, bit_and, digits, bit_and-bitwise}
use mathlib.Core.Path.{◌≡◌, refl}
use native.Mathlib.Omega.{arith}

-- An empty mask leaves no digit, however many digits are looked at.
no_digit : (fuel word : ℕ) → digits (λ rest. zero) min fuel word 0 ≡ 0
no_digit zero word = refl
no_digit (suc fuel) zero = refl
no_digit (suc fuel) (suc word) = omega (arith, no_digit fuel (suc word / 2))

-- The mask 1 keeps the parity.
pub bit_and-one : (word : ℕ) → bit_and word 1 ≡ word % 2
bit_and-one zero = bit_and-bitwise zero 1
bit_and-one (suc word) = omega (arith, bit_and-bitwise (suc word) 1, no_digit word (suc word / 2))
