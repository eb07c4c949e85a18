-- ===== src/Word/Laws.antt =====
-- What the rewrites of the integer passes rest on.
use eddic.Prelude.{◌≡◌, ◌≢◌, arith, ℕ, ◌/◌, ◌<◌, Bool, true, false, some, none, refl}
use eddic.Word.{IsWord, add, sub, mul, neg, div, minus_one, half, differ, is_negative, magnitude}

pub zero_add_lem : (a : ℕ) → IsWord a → add 0 a ≡ a
unfolding add
zero_add_lem a h = omega arith

pub add_zero_lem : (a : ℕ) → IsWord a → add a 0 ≡ a
unfolding add
add_zero_lem a h = omega arith

pub sub_zero_lem : (a : ℕ) → IsWord a → sub a 0 ≡ a
unfolding sub
sub_zero_lem a h = omega arith

pub sub_self : (a : ℕ) → sub a a ≡ 0
unfolding sub
sub_self a = omega arith

pub zero_sub_lem : (a : ℕ) → IsWord a → sub 0 a ≡ neg a
unfolding sub neg
zero_sub_lem a h = omega arith

pub one_mul_lem : (a : ℕ) → IsWord a → mul 1 a ≡ a
unfolding mul
one_mul_lem a h = omega arith

pub mul_one_lem : (a : ℕ) → IsWord a → mul a 1 ≡ a
unfolding mul
mul_one_lem a h = omega arith

pub minus_one_mul_lem : (a : ℕ) → IsWord a → mul minus_one a ≡ neg a
unfolding mul neg
minus_one_mul_lem a h = omega arith

pub mul_minus_one_lem : (a : ℕ) → IsWord a → mul a minus_one ≡ neg a
unfolding mul neg
mul_minus_one_lem a h = omega arith

pub mul_two_lem : (a : ℕ) → mul a 2 ≡ add a a
unfolding mul add
mul_two_lem a = omega arith

pub two_mul_lem : (a : ℕ) → mul 2 a ≡ add a a
unfolding mul add
two_mul_lem a = omega arith

pub div_one_lem : (a : ℕ) → IsWord a → div a 1 ≡ some a
unfolding div
div_one_lem a h = ground arith

pub zero_div_lem : (b : ℕ) → IsWord b → b ≢ 0 → div 0 b ≡ some 0
unfolding div
zero_div_lem b h n = ground arith

differ_self : (b : Bool) → differ b b ≡ false
differ_self true = refl
differ_self false = refl

magnitude-pos : (a : ℕ) → IsWord a → a ≢ 0 → 0 < magnitude a
magnitude-pos a h n = ground arith

quotient_self : (m : ℕ) → 0 < m → m / m ≡ 1
quotient_self m h = grind arith

pub div_self : (a : ℕ) → IsWord a → a ≢ 0 → div a a ≡ some 1
unfolding div
div_self a h n =
    ground (arith, differ_self (is_negative a), quotient_self (magnitude a) (magnitude-pos a h n))

pub div_minus_one_lem : (a : ℕ) → IsWord a → a ≢ half → div a minus_one ≡ some (neg a)
unfolding div neg
div_minus_one_lem a h n = ground arith

pub zero_mul_lem : (a : ℕ) → mul 0 a ≡ 0
unfolding mul
zero_mul_lem a = omega arith

pub mul_zero_lem : (a : ℕ) → mul a 0 ≡ 0
unfolding mul
mul_zero_lem a = omega arith

-- the two traps
pub div_zero_lem : (a : ℕ) → div a 0 ≡ none
unfolding div
div_zero_lem a = refl

pub half_div_minus_one_lem : div half minus_one ≡ none
unfolding div
half_div_minus_one_lem = refl
