-- ===== src/Mtac/Strength/Sound.antt =====
-- ReduceInStrength keeps what a quadruple does, but for the remainder of a negative number.
use Prim.Native.Nat.{bit_and}
use eddic.Prelude.{ℕ, ◌-◌, ◌%◌, ◌^◌, ◌<◌, ◌≡◌, ◌≢◌, refl, arith, Bool, true, Option, none, some}
use eddic.Word
use eddic.Word.{IsWord, half, is_negative}
use eddic.Word.Laws.{mul_two_lem, two_mul_lem}
use eddic.Word.Bits.{bit_and-mask, pow_pos}
use eddic.Mtac.Operator.{Operator}
use eddic.Mtac.Quadruple.{Doubles, Argument, Quadruple, variable, double, int, text}
use eddic.Mtac.Meaning.{
  Value, integer, real, address, Effect, read, effect, run, Preserves, binary_op, unary_op,
}
use eddic.Mtac.Preserve.{quad, Keeps, eq_int-read, run-Keeps, run-eq-some}
use eddic.Mtac.Strength.{is_power_of_two, reduce_in_strength, reduce}
use eddic.Mtac.Strength.Powers.{is_power_of_two_iff}

-- The value is no negative integer.
abbrev pub IsNonNegative : {D : Type 0} → Value D → Type 0
IsNonNegative (integer n) = n < half
IsNonNegative _ = Unit

-- What the pass relies on: the dividend of a MOD is not negative, and MOD is not of floats.
abbrev pub IsReducible : {D : Type 0} → (ℕ → Value D) → Quadruple D → Type 0
IsReducible env q =
    (a : Argument _) → q.op ≡ Operator.modulo → q.arg1 ≡ some a → IsNonNegative (read env a)

rem-power : (n c k : ℕ) → n < half → c ≡ 2 ^ k → c < half → Word.rem n c ≡ some (bit_and n (c - 1))
unfolding Word.rem
rem-power n c k h e w =
    let mask : bit_and n (c - 1) ≡ n % c = rw e (bit_and-mask k n) in
    let positive : 0 < c = rw e (pow_pos k) in ground arith

module _ {D : Type 0} (d : Doubles D) (env : ℕ → Value D) where
  mod_rule :
      (v : Value D) (c : ℕ) (e : Effect D)
      → IsNonNegative v
      → is_power_of_two c ≡ true
      → binary_op d Operator.modulo v (integer c) ≡ some e
      → binary_op d Operator.and v (integer (c - 1)) ≡ some e
  unfolding binary_op
  mod_rule (integer n) c e h t r =
      let (k, p, w) = (is_power_of_two_iff c).0 t in ground (arith, rem-power n c k h p w)
  mod_rule (real x) c e h t r = cc
  mod_rule (address s) c e h t r = cc

  mul_rules :
      (v w : Value D) (e : Effect D)
      → binary_op d Operator.mul v w ≡ some e
      → (v ≡ integer 2 → binary_op d Operator.add w w ≡ some e)
        × (w ≡ integer 2 → binary_op d Operator.add v v ≡ some e)
  unfolding binary_op
  mul_rules (integer m) (integer n) e h = ground (arith, mul_two_lem m, two_mul_lem n)
  mul_rules v w e h = ground arith

  -- The multiplication of floats is left alone: its test for 2.0 asks for an `int`.
  fmul_rules :
      (v w : Value D) (e : Effect D)
      → binary_op d Operator.fmul v w ≡ some e
      → (v ≢ integer 2) × (w ≢ integer 2)
  unfolding binary_op
  fmul_rules (real x) (real y) e h = ground arith
  fmul_rules v w e h = ground arith

  reduce-Keeps :
      (q : Quadruple D) (o : Bool) (op : Operator) (a b : Argument D) (e : Effect D)
      → (op ≡ Operator.modulo → IsNonNegative (read env a))
      → binary_op d op (read env a) (read env b) ≡ some e
      → Keeps d env e q.result (reduce d op (quad q op (some a) (some b)) o)
  unfolding reduce effect
  reduce-Keeps q o Operator.modulo a (int c) e n h =
      let rule = mod_rule (read env a) c e (n refl) in ground arith
  reduce-Keeps q o Operator.modulo a (variable x) e n h = (h, refl)
  reduce-Keeps q o Operator.modulo a (double x) e n h = (h, refl)
  reduce-Keeps q o Operator.modulo a (text x) e n h = (h, refl)
  reduce-Keeps q o Operator.mul a b e n h =
      let rules = mul_rules (read env a) (read env b) e h in
      ground (arith, eq_int-read d env a 2, eq_int-read d env b 2)
  reduce-Keeps q o Operator.fmul a b e n h =
      let rules = fmul_rules (read env a) (read env b) e h in
      ground (arith, eq_int-read d env a 2, eq_int-read d env b 2)
  reduce-Keeps q o op a b e n h = (h, refl)

  -- With fewer arguments only the operators that the pass leaves alone have an effect.
  reduce_all-Keeps :
      (q : Quadruple D) (o : Bool) (op : Operator) (a b : Option (Argument D)) (e : Effect D)
      → ((x : Argument D) → op ≡ Operator.modulo → a ≡ some x → IsNonNegative (read env x))
      → effect d env op a b ≡ some e
      → Keeps d env e q.result (reduce d op (quad q op a b) o)
  unfolding effect unary_op reduce
  reduce_all-Keeps q o op (some a) (some b) e n h = reduce-Keeps q o op a b e (λ m. n a m refl) h
  reduce_all-Keeps q o op none (some b) e n h = cc
  reduce_all-Keeps q o Operator.modulo (some a) none e n h = cc
  reduce_all-Keeps q o Operator.mul (some a) none e n h = cc
  reduce_all-Keeps q o Operator.fmul (some a) none e n h = cc
  reduce_all-Keeps q o op (some a) none e n h = (h, refl)
  reduce_all-Keeps q o Operator.modulo none none e n h = cc
  reduce_all-Keeps q o Operator.mul none none e n h = cc
  reduce_all-Keeps q o Operator.fmul none none e n h = cc
  reduce_all-Keeps q o op none none e n h = (h, refl)

-- When a quadruple runs, ReduceInStrength does not fail on it, and the quadruple that it leaves runs
-- to the same store and takes the same jump, provided that the dividend of a MOD is not negative.
pub run-reduce_in_strength :
    {D : Type 0} (d : Doubles D) (env : ℕ → Value D) (q : Quadruple D) (optimized : Bool)
    (s : (ℕ → Value D) × Bool)
    → IsReducible env q
    → run d env q ≡ some s
    → Preserves d env s (reduce_in_strength d q optimized)
unfolding reduce_in_strength
run-reduce_in_strength d env q optimized s n h =
    let (e, p, c) = run-eq-some d env q s h in
    run-Keeps d env q e s _ c (reduce_all-Keeps d env q optimized q.op q.arg1 q.arg2 e n p)
