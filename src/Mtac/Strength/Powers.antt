-- ===== src/Mtac/Strength/Powers.antt =====
-- isPowerOfTwo tells the powers of two, and powerOfTwo finds the exponent.
use Prim.Native.Nat.{bit_and}
use eddic.Prelude.{ℕ, zero, suc, ◌+◌, ◌-◌, ◌/◌, ◌^◌, ◌≤◌, ◌<◌, ◌≡◌, ◌↔◌, arith, true, ◌∙◌}
use native.Mathlib.Nat.{pow-suc, pow-le-pow_right}
use native.Mathlib.Decide.{dec_le}
use eddic.Word.{half}
use eddic.Word.Bits.{power_of_bit_and, bit_and-power, pow_pos}
use eddic.Mtac.Strength.{is_power_of_two, power_of_two, power_loop}

-- isPowerOfTwo holds of an `int` exactly if it is 2 ^ k for some k, as a positive `int`.
pub is_power_of_two_iff :
    (x : ℕ) → (is_power_of_two x ≡ true) ↔ ((k : ℕ) × (x ≡ 2 ^ k) × (x < half))
unfolding is_power_of_two
is_power_of_two_iff x = (
  λ h.
      let (k, e) = power_of_bit_and x x (omega arith) (ground arith) (ground arith) in
      (k, e, ground arith),
  λ (k, e, h).
      let power : bit_and x (x - 1) ≡ 0 = rw e (bit_and-power k) in
      let positive : 0 < x = omega (arith, pow_pos k) in ground arith,
)

power_loop-power : (fuel k i : ℕ) → k ≤ fuel → 2 ^ k < half → power_loop fuel (2 ^ k) i ≡ i + k
unfolding power_loop
power_loop-power zero k i h w = omega arith
power_loop-power (suc fuel) zero i h w = ground arith
power_loop-power (suc fuel) (suc k) i h w =
    let halved : 2 ^ suc k / 2 ≡ 2 ^ k = omega (arith, pow-suc 2 k) in
    rw halved (ground (arith, power_loop-power fuel k (i + 1), pow_pos k, pow-suc 2 k))

below_half : (k : ℕ) → 2 ^ k < half → k ≤ 31
below_half k h = elim (dec_le k 31) [
  | yes le ↦ le
  | no gt ↦
      let big : 2 ^ 31 ≤ 2 ^ k = pow-le-pow_right {n = 2} (omega arith) {i = 31} (omega arith) in
      absurd (omega arith)
]

-- powerOfTwo gives the exponent of every power of two that is a positive `int`: its loop ends within
-- the 31 rounds of fuel.
pub power_of_two-power : (k : ℕ) → 2 ^ k < half → power_of_two (2 ^ k) ≡ k
unfolding power_of_two
power_of_two-power k h = power_loop-power 31 k 0 (below_half k h) h ∙ omega arith
