-- ===== src/Mtac/Folding/Sound.antt =====
-- ConstantFolding keeps what a quadruple does.
use eddic.Prelude.{ℕ, ◌≡◌, refl, arith, Bool, true, false, Option, none, some}
use eddic.Word.{IsWord}
use eddic.Word.Laws.{minus_one_mul_lem}
use eddic.Mtac.Operator.{Operator}
use eddic.Mtac.Quadruple.{Doubles, Argument, Quadruple, variable, double, int, text}
use eddic.Mtac.Meaning.{
  Value, integer, real, Effect, read, effect, run, IsWordOperand, Preserves, binary_op, unary_op,
}
use eddic.Mtac.Preserve.{quad, Keeps, run-Keeps, run-eq-some}
use eddic.Mtac.Folding.{constant_folding, fold, fold_int, fold_double}

-- The operators that compare two floats and write a flag.
abbrev pub is_float_flag : Operator → Bool
is_float_flag Operator.fe = true
is_float_flag Operator.fne = true
is_float_flag Operator.fg = true
is_float_flag Operator.fge = true
is_float_flag Operator.fle = true
is_float_flag Operator.fl = true
is_float_flag _ = false

module _ {D : Type 0} (d : Doubles D) (env : ℕ → Value D) where
  -- The branch of an integer, where the operator has no second argument.
  int-Keeps :
      (q : Quadruple D) (o : Bool) (op : Operator) (l : ℕ) (e : Effect D)
      → IsWord l
      → unary_op d op (integer l) ≡ some e
      → Keeps d env e q.result (fold_int d op (quad q op (some (int l)) none) o l none)
  unfolding fold_int effect unary_op
  int-Keeps q o Operator.minus l e w h = ground (arith, minus_one_mul_lem l)
  int-Keeps q o op l e w h = ground arith

  double-Keeps :
      (q : Quadruple D) (o : Bool) (op : Operator) (l : D) (e : Effect D)
      → unary_op d op (real l) ≡ some e
      → Keeps d env e q.result (fold_double d op (quad q op (some (double l)) none) o l none)
  unfolding fold_double effect unary_op
  double-Keeps q o Operator.fminus l e h = ground arith
  double-Keeps q o op l e h = ground arith

  int_pair-Keeps :
      (q : Quadruple D) (o : Bool) (op : Operator) (l : ℕ) (b : Argument D) (e : Effect D)
      → binary_op d op (integer l) (read env b) ≡ some e
      → Keeps d env e q.result (fold_int d op (quad q op (some (int l)) (some b)) o l (some b))
  unfolding fold_int binary_op effect unary_op
  int_pair-Keeps q o Operator.minus l b e h = ground arith
  int_pair-Keeps q o op l b e h = ground arith

  double_pair-Keeps :
      (q : Quadruple D) (o : Bool) (op : Operator) (l : D) (b : Argument D) (e : Effect D)
      → is_float_flag op ≡ false
      → binary_op d op (real l) (read env b) ≡ some e
      → Keeps d env e q.result
          (fold_double d op (quad q op (some (double l)) (some b)) o l (some b))
  unfolding fold_double binary_op effect unary_op
  double_pair-Keeps q o Operator.fminus l b e f h = ground arith
  double_pair-Keeps q o op l b e f h = ground arith

  fold-Keeps :
      (q : Quadruple D) (o : Bool) (op : Operator) (a b : Option (Argument D)) (e : Effect D)
      → is_float_flag op ≡ false
      → IsWordOperand env a
      → effect d env op a b ≡ some e
      → Keeps d env e q.result (fold d op (quad q op a b) o a b)
  unfolding fold effect
  fold-Keeps q o op none b e f w h = (h, refl)
  fold-Keeps q o op (some (variable x)) b e f w h = (h, refl)
  fold-Keeps q o op (some (text s)) b e f w h = (h, refl)
  fold-Keeps q o op (some (int l)) none e f w h = int-Keeps q o op l e w h
  fold-Keeps q o op (some (double l)) none e f w h = double-Keeps q o op l e h
  fold-Keeps q o op (some (int l)) (some b) e f w h = int_pair-Keeps q o op l b e h
  fold-Keeps q o op (some (double l)) (some b) e f w h = double_pair-Keeps q o op l b e f h

-- When a quadruple of any operator but the float comparisons FE to FL runs, in a store of 32-bit
-- words, ConstantFolding does not fail on it, and the quadruple that it leaves runs to the same store
-- and takes the same jump.
pub run-constant_folding :
    {D : Type 0} (d : Doubles D) (env : ℕ → Value D) (q : Quadruple D) (optimized : Bool)
    (s : (ℕ → Value D) × Bool)
    → is_float_flag q.op ≡ false
    → IsWordOperand env q.arg1
    → run d env q ≡ some s
    → Preserves d env s (constant_folding d q optimized)
unfolding constant_folding
run-constant_folding d env q optimized s f w h =
    let (e, p, c) = run-eq-some d env q s h in
    run-Keeps d env q e s _ c (fold-Keeps d env q optimized q.op q.arg1 q.arg2 e f w p)
