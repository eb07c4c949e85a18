-- ===== src/Mtac/Folding.antt =====
-- src/mtac/ConstantFolding.cpp: operators whose arguments are literals. `none` is the trap of the
-- compiler itself, which divides when it folds DIV and MOD.
pub mod Sound
pub mod Crash
use mathlib.Core.Bool.{not}
use eddic.Prelude.{ℕ, Bool, true, Option, none, some, ◌==◌, if◌then◌else◌, ◌>>=◌}
use eddic.Word
use eddic.Word.{of_bool, less, less_eq}
use eddic.Mtac.Operator.{Operator}
use eddic.Mtac.Quadruple.{Doubles, Argument, Quadruple, replace_right, variable, int, double, text}
use eddic.Mtac.Identities.{Visited}

module _ {D : Type 0} (d : Doubles D) where
  -- transform_to_if_false_unary, whose result is the pass's `optimized`
  transform_to_if_false_unary : Quadruple D → Bool → Quadruple D × Bool
  transform_to_if_false_unary q value = (
    record q { op = Operator.if_false_unary; arg1 = some (int (of_bool value)); arg2 = none },
    true,
  )

  transform_to_if_unary : Quadruple D → Bool → Quadruple D × Bool
  transform_to_if_unary q value =
      (record q { op = Operator.if_unary; arg1 = some (int (of_bool value)); arg2 = none }, true)

  -- the inner `switch`, on two integer literals
  fold_ints : Operator → Quadruple D → Bool → ℕ → ℕ → Visited d
  unfolding transform_to_if_unary transform_to_if_false_unary
  fold_ints Operator.add q o l r = some (replace_right q (int (Word.add l r)) Operator.assign)
  fold_ints Operator.sub q o l r = some (replace_right q (int (Word.sub l r)) Operator.assign)
  fold_ints Operator.mul q o l r = some (replace_right q (int (Word.mul l r)) Operator.assign)
  fold_ints Operator.div q o l r =
      Word.div l r >>= λ v. some (replace_right q (int v) Operator.assign)
  fold_ints Operator.modulo q o l r =
      Word.rem l r >>= λ v. some (replace_right q (int v) Operator.assign)
  fold_ints Operator.greater q o l r =
      some (replace_right q (int (of_bool (less r l))) Operator.assign)
  fold_ints Operator.greater_equals q o l r =
      some (replace_right q (int (of_bool (less_eq r l))) Operator.assign)
  fold_ints Operator.less q o l r =
      some (replace_right q (int (of_bool (less l r))) Operator.assign)
  fold_ints Operator.less_equals q o l r =
      some (replace_right q (int (of_bool (less_eq l r))) Operator.assign)
  fold_ints Operator.equals q o l r =
      some (replace_right q (int (of_bool (l == r))) Operator.assign)
  fold_ints Operator.not_equals q o l r =
      some (replace_right q (int (of_bool (not (l == r)))) Operator.assign)
  fold_ints Operator.if_equals q o l r = some (transform_to_if_unary q (l == r))
  fold_ints Operator.if_false_equals q o l r = some (transform_to_if_false_unary q (l == r))
  fold_ints Operator.if_not_equals q o l r = some (transform_to_if_unary q (not (l == r)))
  fold_ints Operator.if_false_not_equals q o l r =
      some (transform_to_if_false_unary q (not (l == r)))
  fold_ints Operator.if_less q o l r = some (transform_to_if_unary q (less l r))
  fold_ints Operator.if_false_less q o l r = some (transform_to_if_false_unary q (less l r))
  fold_ints Operator.if_less_equals q o l r = some (transform_to_if_unary q (less_eq l r))
  fold_ints Operator.if_false_less_equals q o l r =
      some (transform_to_if_false_unary q (less_eq l r))
  fold_ints Operator.if_greater q o l r = some (transform_to_if_unary q (less r l))
  fold_ints Operator.if_false_greater q o l r = some (transform_to_if_false_unary q (less r l))
  fold_ints Operator.if_greater_equals q o l r = some (transform_to_if_unary q (less_eq r l))
  fold_ints Operator.if_false_greater_equals q o l r =
      some (transform_to_if_false_unary q (less_eq r l))
  fold_ints _ q o l r = some (q, o)

  -- the branch of an integer `arg1`
  fold_int : Operator → Quadruple D → Bool → ℕ → Option (Argument D) → Visited d
  unfolding fold_ints
  fold_int Operator.minus q o l b =
      some (replace_right q (int (Word.mul Word.minus_one l)) Operator.assign)
  fold_int Operator.not q o l b =
      if l == 0
      then some (replace_right q (int 1) Operator.assign)
      else some (replace_right q (int 0) Operator.assign)
  fold_int Operator.i2f q o l b =
      some (replace_right q (double (d.float_of_int l)) Operator.fassign)
  fold_int op q o l (some (int r)) = fold_ints op q o l r
  fold_int op q o l _ = some (q, o)

  -- the inner `switch`, on two float literals: a comparison is an `int`, with FASSIGN
  fold_doubles : Operator → Quadruple D → Bool → D → D → Visited d
  unfolding transform_to_if_unary transform_to_if_false_unary
  fold_doubles Operator.fadd q o l r = some (replace_right q (double (d.add l r)) Operator.fassign)
  fold_doubles Operator.fsub q o l r = some (replace_right q (double (d.sub l r)) Operator.fassign)
  fold_doubles Operator.fmul q o l r = some (replace_right q (double (d.mul l r)) Operator.fassign)
  fold_doubles Operator.fdiv q o l r = some (replace_right q (double (d.div l r)) Operator.fassign)
  fold_doubles Operator.fg q o l r =
      some (replace_right q (int (of_bool (d.lt r l))) Operator.fassign)
  fold_doubles Operator.fge q o l r =
      some (replace_right q (int (of_bool (d.le r l))) Operator.fassign)
  fold_doubles Operator.fl q o l r =
      some (replace_right q (int (of_bool (d.lt l r))) Operator.fassign)
  fold_doubles Operator.fle q o l r =
      some (replace_right q (int (of_bool (d.le l r))) Operator.fassign)
  fold_doubles Operator.fe q o l r =
      some (replace_right q (int (of_bool (d.eq l r))) Operator.fassign)
  fold_doubles Operator.fne q o l r =
      some (replace_right q (int (of_bool (not (d.eq l r)))) Operator.fassign)
  fold_doubles Operator.if_fe q o l r = some (transform_to_if_unary q (d.eq l r))
  fold_doubles Operator.if_false_fe q o l r = some (transform_to_if_false_unary q (d.eq l r))
  fold_doubles Operator.if_fne q o l r = some (transform_to_if_unary q (not (d.eq l r)))
  fold_doubles Operator.if_false_fne q o l r = some (transform_to_if_false_unary q (not (d.eq l r)))
  fold_doubles Operator.if_fl q o l r = some (transform_to_if_unary q (d.lt l r))
  fold_doubles Operator.if_false_fl q o l r = some (transform_to_if_false_unary q (d.lt l r))
  fold_doubles Operator.if_fle q o l r = some (transform_to_if_unary q (d.le l r))
  fold_doubles Operator.if_false_fle q o l r = some (transform_to_if_false_unary q (d.le l r))
  fold_doubles Operator.if_fg q o l r = some (transform_to_if_unary q (d.lt r l))
  fold_doubles Operator.if_false_fg q o l r = some (transform_to_if_false_unary q (d.lt r l))
  fold_doubles Operator.if_fge q o l r = some (transform_to_if_unary q (d.le r l))
  fold_doubles Operator.if_false_fge q o l r = some (transform_to_if_false_unary q (d.le r l))
  fold_doubles _ q o l r = some (q, o)

  -- the branch of a float `arg1`
  fold_double : Operator → Quadruple D → Bool → D → Option (Argument D) → Visited d
  unfolding fold_doubles
  fold_double Operator.fminus q o l b =
      some (replace_right q (double (d.mul (d.literal Word.minus_one) l)) Operator.fassign)
  fold_double Operator.f2i q o l b =
      some (replace_right q (int (d.int_of_double l)) Operator.assign)
  fold_double op q o l (some (double r)) = fold_doubles op q o l r
  fold_double op q o l _ = some (q, o)

  -- by the kind of `arg1`
  fold : Operator → Quadruple D → Bool → Option (Argument D) → Option (Argument D) → Visited d
  unfolding fold_int fold_double
  fold op q o (some (int l)) b = fold_int op q o l b
  fold op q o (some (double l)) b = fold_double op q o l b
  fold op q o _ b = some (q, o)

  unfoldable pub constant_folding : Quadruple D → Bool → Visited d
  unfolding fold
  constant_folding q optimized = fold q.op q optimized q.arg1 q.arg2
