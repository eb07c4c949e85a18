-- ===== src/Word.antt =====
-- `int` of the compiler (and INT of the 32-bit target) as its bit pattern below 2 ^ 32, in two's
-- complement. A division that the processor answers by a trap is `none`.
pub mod Laws
pub mod Bits
pub mod Digits
use eddic.Prelude.{
  ℕ, ◌+◌, ◌-◌, ◌*◌, ◌/◌, ◌%◌, ◌^◌, ◌<◌, Bool, true, false, ◌&&◌, ◌||◌, Option, none, some, ltb, leb,
  ◌==◌, if◌then◌else◌,
}

abbrev pub modulus : ℕ
modulus = 0x1_0000_0000

abbrev pub half : ℕ
half = 0x8000_0000

abbrev pub minus_one : ℕ
minus_one = 0xffff_ffff

abbrev pub IsWord : ℕ → Type 0
IsWord a = a < modulus

unfoldable pub add : ℕ → ℕ → ℕ
add a b = (a + b) % modulus

unfoldable pub sub : ℕ → ℕ → ℕ
sub a b = (a + modulus - b) % modulus

unfoldable pub mul : ℕ → ℕ → ℕ
mul a b = a * b % modulus

unfoldable pub neg : ℕ → ℕ
neg a = (modulus - a) % modulus

abbrev pub is_negative : ℕ → Bool
is_negative a = leb half a

-- the absolute value, as a number
abbrev pub magnitude : ℕ → ℕ
magnitude a = if is_negative a then modulus - a else a

abbrev pub with_sign : Bool → ℕ → ℕ
with_sign true m = (modulus - m) % modulus
with_sign false m = m

abbrev pub differ : Bool → Bool → Bool
differ true true = false
differ true false = true
differ false b = b

-- A zero divisor, or the quotient 2 ^ 31, which is no `int`.
abbrev pub traps : ℕ → ℕ → Bool
traps a b = b == 0 || a == half && b == minus_one

-- `/` and `%` of C++ and of `idiv` round towards zero.
unfoldable pub div : ℕ → ℕ → Option ℕ
div a b =
    if traps a b
    then none
    else some (with_sign (differ (is_negative a) (is_negative b)) (magnitude a / magnitude b))

unfoldable pub rem : ℕ → ℕ → Option ℕ
rem a b = if traps a b then none else some (with_sign (is_negative a) (magnitude a % magnitude b))

-- The signed order is that of the patterns with the sign bit turned over.
unfoldable pub less : ℕ → ℕ → Bool
less a b = ltb ((a + half) % modulus) ((b + half) % modulus)

unfoldable pub less_eq : ℕ → ℕ → Bool
less_eq a b = leb ((a + half) % modulus) ((b + half) % modulus)

abbrev pub of_bool : Bool → ℕ
of_bool true = 1
of_bool false = 0
