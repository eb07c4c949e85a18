-- ===== src/Word/Digits.antt =====
-- A word against itself: exclusive or, which clears a register, and or, which tests it.
use Prim.Native.Nat.{
  ℕ, zero, suc, max, differ, digits, bit_xor, bit_or, bit_xor-bitwise, bit_or-bitwise,
}
use eddic.Prelude.{◌≡◌, refl, arith, ◌/◌, ◌%◌, ◌≤◌}

differ_self : (x : ℕ) → differ x x ≡ 0
differ_self zero = refl
differ_self (suc x) = differ_self x

xor_digits : (k a : ℕ) → a ≤ k → digits (λ b. b) differ k a a ≡ 0
xor_digits zero a h = omega arith
xor_digits (suc k) zero h = refl
xor_digits (suc k) (suc a) h =
    omega (arith, xor_digits k (suc a / 2) (omega arith), differ_self (suc a % 2))

pub bit_xor_self : (a : ℕ) → bit_xor a a ≡ 0
bit_xor_self a = omega (arith, bit_xor-bitwise a a, xor_digits a a (omega arith))

or_digits : (k a : ℕ) → a ≤ k → digits (λ b. b) max k a a ≡ a
or_digits zero a h = refl
or_digits (suc k) zero h = refl
or_digits (suc k) (suc a) h = omega (arith, or_digits k (suc a / 2) (omega arith))

pub bit_or_self : (a : ℕ) → bit_or a a ≡ a
bit_or_self a = omega (arith, bit_or-bitwise a a, or_digits a a (omega arith))
