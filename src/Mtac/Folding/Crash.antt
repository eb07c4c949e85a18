-- ===== src/Mtac/Folding/Crash.antt =====
-- Where ConstantFolding fails, what it leaves of float comparisons, and that one pass is enough.
use mathlib.Core.Bool.{false≢true}
use eddic.Prelude.{ℕ, ◌≡◌, ◌↔◌, refl, arith, Bool, true, false, Option, none, some}
use eddic.Word
use eddic.Word.{traps}
use eddic.Mtac.Operator.{Operator}
use eddic.Mtac.Quadruple.{Doubles, Argument, Quadruple, variable, double, int, text}
use eddic.Mtac.Meaning.{Value, run, effect, unary_op}
use eddic.Mtac.Preserve.{quad}
use eddic.Mtac.Folding.{constant_folding, fold, fold_int, fold_double}
use eddic.Mtac.Folding.Sound.{is_float_flag}

abbrev pub is_division : Operator → Bool
is_division Operator.div = true
is_division Operator.modulo = true
is_division _ = false

-- A division of two literals that the processor answers by a trap.
abbrev pub TrapsOn : {D : Type 0} → Operator → Option (Argument D) → Option (Argument D) → Type 0
TrapsOn op a b =
    (l : ℕ) × (r : ℕ) × (is_division op ≡ true)
    × (a ≡ some (int l))
    × (b ≡ some (int r))
    × (traps l r ≡ true)

module _ {D : Type 0} (d : Doubles D) where
  fold_int-none :
      (q : Quadruple D) (o : Bool) (op : Operator) (l : ℕ) (b : Option (Argument D))
      → fold_int d op q o l b ≡ none
      → TrapsOn op (some (int l)) b
  unfolding fold_int Word.div Word.rem
  fold_int-none q o Operator.div l (some (int r)) h = (l, r, refl, refl, refl, ground arith)
  fold_int-none q o Operator.modulo l (some (int r)) h = (l, r, refl, refl, refl, ground arith)
  fold_int-none q o op l b h = absurd (ground arith)

  fold_double-ne-none :
      (q : Quadruple D) (o : Bool) (op : Operator) (l : D) (b : Option (Argument D))
      → ¬ (fold_double d op q o l b ≡ none)
  unfolding fold_double
  fold_double-ne-none q o Operator.add l b h = ground arith
  fold_double-ne-none q o op l b h = ground arith

  fold-none :
      (q : Quadruple D) (o : Bool) (op : Operator) (a b : Option (Argument D))
      → fold d op q o a b ≡ none
      → TrapsOn op a b
  unfolding fold
  fold-none q o op none b h = cc
  fold-none q o op (some (variable x)) b h = cc
  fold-none q o op (some (text s)) b h = cc
  fold-none q o op (some (int l)) b h = fold_int-none q o op l b h
  fold-none q o op (some (double l)) b h = absurd (fold_double-ne-none q o op l b h)

  TrapsOn-fold :
      (q : Quadruple D) (o : Bool) (op : Operator) (a b : Option (Argument D))
      → TrapsOn op a b
      → fold d op q o a b ≡ none
  unfolding fold fold_int Word.div Word.rem
  TrapsOn-fold q o Operator.div a b (l, r, i, ea, eb, t) = rw (ea, eb) (ground arith)
  TrapsOn-fold q o Operator.modulo a b (l, r, i, ea, eb, t) = rw (ea, eb) (ground arith)
  TrapsOn-fold q o op a b (l, r, i, ea, eb, t) = cc

-- ConstantFolding fails exactly on a DIV or MOD of two integer literals whose divisor is 0, or whose
-- quotient is 2 ^ 31: the compiler divides, and traps.
pub constant_folding-none :
    {D : Type 0} (d : Doubles D) (q : Quadruple D) (optimized : Bool)
    → (constant_folding d q optimized ≡ none) ↔ TrapsOn q.op q.arg1 q.arg2
unfolding constant_folding
constant_folding-none d q optimized =
    (fold-none d q optimized q.op q.arg1 q.arg2, TrapsOn-fold d q optimized q.op q.arg1 q.arg2)

-- A rewritten quadruple that the code generator has no meaning for.
abbrev pub IsStuck : {D : Type 0} → Doubles D → (ℕ → Value D) → Option (Quadruple D × Bool) → Type 0
IsStuck d env none = ⊥
IsStuck d env (some (q, o)) = (q.op ≡ Operator.fassign) × (o ≡ true) × (run d env q ≡ none)

-- A second run of the pass changes nothing.
abbrev pub IsFolded : {D : Type 0} → Doubles D → Option (Quadruple D × Bool) → Type 0
IsFolded d none = Unit
IsFolded d (some (q, o)) = constant_folding d q o ≡ some (q, o)

module _ {D : Type 0} (d : Doubles D) where
  fold-IsStuck :
      (env : ℕ → Value D) (q : Quadruple D) (o : Bool) (op : Operator) (l r : D)
      → is_float_flag op ≡ true
      → IsStuck d env (fold d op q o (some (double l)) (some (double r)))
  unfolding fold fold_double run effect unary_op
  fold-IsStuck env q o Operator.fe l r f = (refl, refl, refl)
  fold-IsStuck env q o Operator.fne l r f = (refl, refl, refl)
  fold-IsStuck env q o Operator.fg l r f = (refl, refl, refl)
  fold-IsStuck env q o Operator.fge l r f = (refl, refl, refl)
  fold-IsStuck env q o Operator.fle l r f = (refl, refl, refl)
  fold-IsStuck env q o Operator.fl l r f = (refl, refl, refl)
  fold-IsStuck env q o op l r f = absurd (false≢true f)

  fold-IsFolded :
      (q : Quadruple D) (o : Bool) (op : Operator) (a b : Option (Argument D))
      → IsFolded d (fold d op (quad q op a b) o a b)
  unfolding constant_folding fold_int fold_double
  fold-IsFolded q o op none b = refl
  fold-IsFolded q o op (some (variable x)) b = refl
  fold-IsFolded q o op (some (text s)) b = refl
  fold-IsFolded q o Operator.minus (some (int l)) b = ground arith
  fold-IsFolded q o op (some (int l)) b = ground arith
  fold-IsFolded q o Operator.fminus (some (double l)) b = ground arith
  fold-IsFolded q o op (some (double l)) b = ground arith

-- A comparison of two float literals, FE to FL, is folded to a FASSIGN of an integer, which has no
-- meaning: FASSIGN writes a float register.
pub constant_folding-IsStuck :
    {D : Type 0} (d : Doubles D) (env : ℕ → Value D) (q : Quadruple D) (optimized : Bool) (l r : D)
    → is_float_flag q.op ≡ true
    → q.arg1 ≡ some (double l)
    → q.arg2 ≡ some (double r)
    → IsStuck d env (constant_folding d q optimized)
unfolding constant_folding
constant_folding-IsStuck d env q optimized l r f ea eb =
    simp (ea, eb) (fold-IsStuck d env q optimized q.op l r f)

-- One pass is enough: where ConstantFolding returns a quadruple, folding that again returns it as it
-- is.
pub constant_folding-IsFolded :
    {D : Type 0} (d : Doubles D) (q : Quadruple D) (optimized : Bool)
    → IsFolded d (constant_folding d q optimized)
unfolding constant_folding
constant_folding-IsFolded d q optimized = fold-IsFolded d q optimized q.op q.arg1 q.arg2
