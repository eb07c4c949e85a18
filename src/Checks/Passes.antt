-- ===== src/Checks/Passes.antt =====
-- The passes over quadruples at concrete inputs. Floats are whole numbers here: enough to run on.
use eddic.Prelude.{
  ◌≢◌, ℕ, ◌+◌, ◌*◌, ◌-◌, ◌/◌, ◌≡◌, ◌↔◌, refl, arith, Bool, true, false, none, some, List, [], ◌∷◌,
  ltb, leb, ◌==◌, ◌^◌, ◌<◌, if◌then◌else◌,
}
use Prim.Native.Nat.{min}
use eddic.Word
use eddic.Word.{half}
use eddic.Mtac.Operator.{Operator}
use eddic.Mtac.Quadruple.{
  Doubles, Argument, Quadruple, variable, double, int, replace_right, default,
}
use eddic.Mtac.Meaning.{Value, integer, read, run, binary_op, Preserves}
use mathlib.Core.Path.{subst}
use eddic.Mtac.Strength.Negative.{run-reduce_in_strength-negative}
use eddic.Mtac.Identities.{arithmetic_identities}
use eddic.Mtac.Identities.Sound.{run-arithmetic_identities}
use eddic.Mtac.Identities.Floats.{arithmetic_identities-float}
use eddic.Mtac.Folding.{constant_folding}
use eddic.Mtac.Folding.Sound.{run-constant_folding}
use eddic.Mtac.Folding.Crash.{
  constant_folding-none, TrapsOn, constant_folding-IsStuck, IsStuck, constant_folding-IsFolded,
  IsFolded,
}
use eddic.Mtac.Strength.{reduce_in_strength, is_power_of_two, power_of_two}
use eddic.Mtac.Strength.Powers.{is_power_of_two_iff, power_of_two-power}
use eddic.Mtac.Strength.Sound.{run-reduce_in_strength, IsReducible, IsNonNegative}
use eddic.Mtac.MathPropagation.{MathPropagation, optimize, round}
use eddic.Mtac.MathPropagation.Dead.{round-optimize}

abbrev pub whole : Doubles ℕ
whole = record {
  float_of_int = λ n. n;
  literal = λ n. n;
  int_of_double = λ n. n;
  eq = λ a b. a == b;
  lt = λ a b. ltb a b;
  le = λ a b. leb a b;
  add = λ a b. a + b;
  sub = λ a b. a - b;
  mul = λ a b. a * b;
  div = λ a b. a / b;
}

-- x0 = `a` op `b`, where x1 holds 7 and every other variable 12
abbrev example : Operator → Argument ℕ → Argument ℕ → Quadruple ℕ
example op a b = record {
  uid = 1;
  result = some 0;
  arg1 = some a;
  arg2 = some b;
  op = op;
  size = default;
  secondary = none;
  m_function = none;
  m_param = "";
  block = none;
}

abbrev store : ℕ → Value ℕ
store x = integer (min 12 (7 * x))

abbrev written : ℕ → (ℕ → Value ℕ) × Bool
written v = (λ y. if y == 0 then integer v else store y, false)

add_zero_runs :
    arithmetic_identities whole (example Operator.add (variable 1) (int 0)) false
    ≡ some (replace_right (example Operator.add (variable 1) (int 0)) (variable 1) Operator.assign)
unfolding arithmetic_identities
add_zero_runs = refl

add_run : run whole store (example Operator.add (variable 1) (int 0)) ≡ some (written 7)
unfolding run binary_op Word.add
add_run = refl

run-arithmetic_identities_example :
    Preserves whole store
      (written 7)
      (arithmetic_identities whole (example Operator.add (variable 1) (int 0)) false)
run-arithmetic_identities_example =
    run-arithmetic_identities whole store (example Operator.add (variable 1) (int 0)) false
      (written 7) tt (omega arith) (omega arith) add_run

arithmetic_identities-float_example :
    arithmetic_identities whole (example Operator.fadd (variable 1) (double 0)) true
    ≡ some (example Operator.fadd (variable 1) (double 0), true)
arithmetic_identities-float_example =
    arithmetic_identities-float whole (example Operator.fadd (variable 1) (double 0)) true
      (variable 1) (double 0) tt refl refl refl refl refl

-- 7 - 9 is -2
sub_run : run whole store (example Operator.sub (int 7) (int 9)) ≡ some (written 0xffff_fffe)
unfolding run binary_op Word.sub
sub_run = refl

run-constant_folding_example :
    Preserves whole store
      (written 0xffff_fffe)
      (constant_folding whole (example Operator.sub (int 7) (int 9)) false)
run-constant_folding_example =
    run-constant_folding whole store (example Operator.sub (int 7) (int 9)) false
      (written 0xffff_fffe) refl (omega arith) sub_run

constant_folding-none_example :
    (constant_folding whole (example Operator.modulo (int 5) (int 0)) false ≡ none)
    ↔ TrapsOn {D = ℕ} Operator.modulo (some (int 5)) (some (int 0))
constant_folding-none_example =
    constant_folding-none whole (example Operator.modulo (int 5) (int 0)) false

modulo_crashes : constant_folding whole (example Operator.modulo (int 5) (int 0)) false ≡ none
modulo_crashes = constant_folding-none_example.1 (5, 0, refl, refl, refl, refl)

constant_folding-IsStuck_example :
    IsStuck whole store (constant_folding whole (example Operator.fg (double 2) (double 1)) false)
constant_folding-IsStuck_example =
    constant_folding-IsStuck whole store (example Operator.fg (double 2) (double 1)) false 2 1 refl
      refl refl

constant_folding-IsFolded_example :
    IsFolded whole (constant_folding whole (example Operator.less (int 2) (int 3)) false)
constant_folding-IsFolded_example =
    constant_folding-IsFolded whole (example Operator.less (int 2) (int 3)) false

mod_run : run whole store (example Operator.modulo (variable 1) (int 4)) ≡ some (written 3)
unfolding run binary_op Word.rem
mod_run = refl

reads_seven : IsReducible store (example Operator.modulo (variable 1) (int 4))
reads_seven a m e =
    let same : variable 1 ≡ a = cc in subst (λ x. IsNonNegative (read store x)) same (omega arith)

run-reduce_in_strength_example :
    Preserves whole store
      (written 3)
      (reduce_in_strength whole (example Operator.modulo (variable 1) (int 4)) false)
run-reduce_in_strength_example =
    run-reduce_in_strength whole store (example Operator.modulo (variable 1) (int 4)) false
      (written 3) reads_seven mod_run

-- -3 % 4 is -3, and -3 & 3 is 1
negative_run :
    run whole store (example Operator.modulo (int 0xffff_fffd) (int 4)) ≡ some (written 0xffff_fffd)
unfolding run binary_op Word.rem
negative_run = refl

four_is_power : is_power_of_two 4 ≡ true
unfolding is_power_of_two
four_is_power = refl

run-reduce_in_strength-negative_example :
    (p : Quadruple ℕ) × (changed : Bool) × (t : (ℕ → Value ℕ) × Bool) × (reduce_in_strength whole
        (example Operator.modulo (int 0xffff_fffd) (int 4))
        false
      ≡ some (p, changed))
    × (run whole store p ≡ some t)
    × (t.0 0 ≢ (written 0xffff_fffd).0 0)
run-reduce_in_strength-negative_example =
    run-reduce_in_strength-negative whole store (example Operator.modulo (int 0xffff_fffd) (int 4))
      false (int 0xffff_fffd) 0xffff_fffd 4 0 (written 0xffff_fffd) refl refl refl refl refl refl
      four_is_power negative_run (λ e. ground (arith, e))

is_power_of_two_iff_example : (is_power_of_two 12 ≡ true) ↔ ((k : ℕ) × (12 ≡ 2 ^ k) × (12 < half))
is_power_of_two_iff_example = is_power_of_two_iff 12

power_of_two-power_example : power_of_two (2 ^ 10) ≡ 10
power_of_two-power_example = power_of_two-power 10 (omega arith)

abbrev second_round : MathPropagation ℕ
second_round = record {
  optimized = false;
  pass = optimize;
  assigns = (1, example Operator.add (variable 2) (int 3)) ∷ [];
  usage = λ x. 1;
}

abbrev copies : List (Quadruple ℕ)
copies = record (example Operator.assign (variable 1) (int 0)) { arg2 = none } ∷ []

round-optimize_example :
    ((round (λ x. false) (λ x. false) second_round copies).1 ≡ copies)
    × ((round (λ x. false) (λ x. false) second_round copies).0.optimized ≡ false)
round-optimize_example = round-optimize (λ x. false) (λ x. false) second_round copies refl
