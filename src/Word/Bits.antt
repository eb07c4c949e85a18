-- ===== src/Word/Bits.antt =====
-- Bitwise AND on words, for the tests and masks of powers of two.
use Prim.Native.Nat.{min, bit_and, digits, bit_and-bitwise}
use eddic.Prelude.{
  ℕ, zero, suc, ◌+◌, ◌-◌, ◌*◌, ◌/◌, ◌%◌, ◌^◌, ◌≤◌, ◌<◌, ◌≡◌, ◌⊎◌, inl, inr, refl, arith, ap, ◌∙◌,
}
use mathlib.Core.Path.{ap₂}
use native.Mathlib.Decide.{dec_lt}
use native.Mathlib.Nat.{pow-suc}

-- The recursion that AND stands for, on `k` binary digits.
abbrev low_and : ℕ → ℕ → ℕ → ℕ
low_and k a b = digits (λ _. zero) min k a b

enough_digits : (a k j b : ℕ) → a ≤ k → a ≤ j → low_and k a b ≡ low_and j a b
enough_digits a zero zero b hk hj = refl
enough_digits zero zero (suc j) b hk hj = refl
enough_digits zero (suc k) zero b hk hj = refl
enough_digits zero (suc k) (suc j) b hk hj = refl
enough_digits (suc a) zero j b hk hj = absurd (omega arith)
enough_digits (suc a) (suc k) zero b hk hj = absurd (omega arith)
enough_digits (suc a) (suc k) (suc j) b hk hj =
    omega (arith, enough_digits (suc a / 2) k j (b / 2) (omega arith) (omega arith))

-- The lowest digit of an AND, and the rest.
pub bit_and-halves : (a b : ℕ) → bit_and a b ≡ bit_and (a / 2) (b / 2) * 2 + min (a % 2) (b % 2)
bit_and-halves zero b = omega (arith, bit_and-bitwise 0 b, bit_and-bitwise 0 (b / 2))
bit_and-halves (suc a) b =
    let half = enough_digits (suc a / 2) a (suc a / 2) (b / 2) (omega arith) (omega arith) in
    omega (arith, half, bit_and-bitwise (suc a) b, bit_and-bitwise (suc a / 2) (b / 2))

bit_and-self_below : (k a : ℕ) → a ≤ k → bit_and a a ≡ a
bit_and-self_below k zero h = refl
bit_and-self_below zero (suc a) h = absurd (omega arith)
bit_and-self_below (suc k) (suc a) h =
    omega (arith, bit_and-halves (suc a) (suc a), bit_and-self_below k (suc a / 2) (omega arith))

pub bit_and_self : (a : ℕ) → bit_and a a ≡ a
bit_and_self a = bit_and-self_below a a (omega arith)

double_mod : (a m : ℕ) → 0 < m → a % (2 * m) ≡ a / 2 % m * 2 + a % 2
double_mod a m h = grind arith

bit_and-zero_below : (k a : ℕ) → a ≤ k → bit_and a 0 ≡ 0
bit_and-zero_below k zero h = refl
bit_and-zero_below zero (suc a) h = absurd (omega arith)
bit_and-zero_below (suc k) (suc a) h =
    omega (arith, bit_and-halves (suc a) 0, bit_and-zero_below k (suc a / 2) (omega arith))

pub pow_pos : (k : ℕ) → 0 < 2 ^ k
pow_pos zero = omega arith
pow_pos (suc k) = omega (arith, pow-suc 2 k, pow_pos k)

rest_half : (m : ℕ) → 0 < m → (2 * m - 1) / 2 ≡ m - 1
rest_half m h = omega arith

-- `a & (2 ^ k - 1)` keeps the k low digits.
pub bit_and-mask : (k a : ℕ) → bit_and a (2 ^ k - 1) ≡ a % 2 ^ k
bit_and-mask zero a = omega (arith, bit_and-zero_below a a (omega arith))
bit_and-mask (suc k) a =
    let twice : 2 ^ suc k ≡ 2 * 2 ^ k = omega (arith, pow-suc 2 k) in
    rw twice (
      omega (
        arith,
        pow_pos k,
        bit_and-halves a (2 * 2 ^ k - 1),
        ap (bit_and (a / 2)) (rest_half (2 ^ k) (pow_pos k)),
        bit_and-mask k (a / 2),
        double_mod a (2 ^ k) (pow_pos k),
      ))

parity : (a : ℕ) → ((b : ℕ) × (a ≡ 2 * b)) ⊎ ((b : ℕ) × (a ≡ 2 * b + 1))
parity a = elim (dec_lt (a % 2) 1) [
  | yes h ↦ inl (a / 2, omega arith)
  | no h ↦ inr (a / 2, omega arith)
]

even_halves : (b : ℕ) → bit_and (2 * b / 2) ((2 * b - 1) / 2) ≡ bit_and b (b - 1)
even_halves b = ap₂ bit_and (omega arith) (omega arith)

odd_halves : (b : ℕ) → bit_and ((2 * b + 1) / 2) (2 * b / 2) ≡ b
odd_halves b =
    ap₂ bit_and {x = (2 * b + 1) / 2} {y = b} (omega arith) (omega arith) ∙ bit_and_self b

odd_pred : (b : ℕ) → bit_and (2 * b + 1) (2 * b + 1 - 1) ≡ bit_and (2 * b + 1) (2 * b)
odd_pred b = ap (bit_and (2 * b + 1)) (omega arith)

mod_self : (m : ℕ) → 0 < m → m % m ≡ 0
mod_self m h = grind arith

-- A positive number whose AND with its predecessor is 0 is a power of two.
pub power_of_bit_and : (n a : ℕ) → a ≤ n → 0 < a → bit_and a (a - 1) ≡ 0 → (k : ℕ) × (a ≡ 2 ^ k)
power_of_bit_and zero a h p e = absurd (omega arith)
power_of_bit_and (suc n) a h p e = elim (parity a) [
  | inl (b, even) ↦
      let rest : bit_and b (b - 1) ≡ 0 = omega (
        arith,
        ap (λ t. bit_and t (t - 1)) even,
        bit_and-halves (2 * b) (2 * b - 1),
        even_halves b,
      ) in
      let (k, power) = power_of_bit_and n b (omega arith) (omega arith) rest in
      (suc k, omega (arith, pow-suc 2 k))
  | inr (b, odd) ↦ (
    0,
    omega (
      arith,
      ap (λ t. bit_and t (t - 1)) odd,
      odd_pred b,
      bit_and-halves (2 * b + 1) (2 * b),
      odd_halves b,
    ),
  )
]

pub bit_and-power : (k : ℕ) → bit_and (2 ^ k) (2 ^ k - 1) ≡ 0
bit_and-power k = bit_and-mask k (2 ^ k) ∙ mod_self (2 ^ k) (pow_pos k)
