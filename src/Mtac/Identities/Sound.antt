-- ===== src/Mtac/Identities/Sound.antt =====
-- ArithmeticIdentities keeps what a quadruple of integers does.
use eddic.Prelude.{ℕ, ◌≡◌, ◌≢◌, Bool, Option, none, some}
use eddic.Mtac.Operator.{Operator}
use eddic.Mtac.Quadruple.{Doubles, Argument, Quadruple}
use eddic.Mtac.Meaning.{Value, effect, run, IsWordOperand, Agrees-of_eq, Preserves, unary_op}
use eddic.Mtac.Preserve.{quad, run-Keeps, run_binary}
use eddic.Mtac.Identities.{arithmetic_identities}
use eddic.Mtac.Identities.Rules.{add-Keeps, sub-Keeps, mul-Keeps, div-Keeps}
use eddic.Mtac.Identities.Assign.{assign-Preserves, assign_shape, passign_shape, fassign_shape}

-- The operators of floats that the pass rewrites.
abbrev pub IsInteger : Operator → Type 0
IsInteger Operator.fadd = ⊥
IsInteger Operator.fsub = ⊥
IsInteger Operator.fmul = ⊥
IsInteger Operator.fdiv = ⊥
IsInteger _ = Unit

-- The operators that need two integers.
abbrev IsArithmetic : Operator → Type 0
IsArithmetic Operator.add = Unit
IsArithmetic Operator.sub = Unit
IsArithmetic Operator.mul = Unit
IsArithmetic Operator.div = Unit
IsArithmetic _ = ⊥

module _ {D : Type 0} (d : Doubles D) (env : ℕ → Value D) where
  -- A binary operator does not run without its two arguments.
  missing_first :
      (q : Quadruple D) (op : Operator) (b : Option (Argument D)) (s : (ℕ → Value D) × Bool)
      → IsArithmetic op
      → run d env (quad q op none b) ≢ some s
  unfolding run effect
  missing_first q Operator.add none s i h = cc
  missing_first q op (some b) s i h = cc
  missing_first q Operator.sub none s i h = cc
  missing_first q Operator.mul none s i h = cc
  missing_first q Operator.div none s i h = cc
  missing_first q op none s i h = absurd i

  missing_second :
      (q : Quadruple D) (op : Operator) (a : Argument D) (s : (ℕ → Value D) × Bool)
      → IsArithmetic op
      → run d env (quad q op (some a) none) ≢ some s
  unfolding run effect unary_op
  missing_second q Operator.add a s i h = cc
  missing_second q Operator.sub a s i h = cc
  missing_second q Operator.mul a s i h = cc
  missing_second q Operator.div a s i h = cc
  missing_second q op a s i h = absurd i

  preserves :
      (q : Quadruple D) (o : Bool) (op : Operator) (a b : Option (Argument D))
      (s : (ℕ → Value D) × Bool)
      → IsInteger op
      → IsWordOperand env a
      → IsWordOperand env b
      → run d env (quad q op a b) ≡ some s
      → Preserves d env s (arithmetic_identities d (quad q op a b) o)
  unfolding arithmetic_identities
  preserves q o Operator.add (some a) (some b) s i wa wb h =
      let (e, p, c) = run_binary d env q Operator.add a b s h in
      run-Keeps d env q e s _ c (add-Keeps d env q o a b e wa wb p)
  preserves q o Operator.sub (some a) (some b) s i wa wb h =
      let (e, p, c) = run_binary d env q Operator.sub a b s h in
      run-Keeps d env q e s _ c (sub-Keeps d env q o a b e wa wb p)
  preserves q o Operator.mul (some a) (some b) s i wa wb h =
      let (e, p, c) = run_binary d env q Operator.mul a b s h in
      run-Keeps d env q e s _ c (mul-Keeps d env q o a b e wa wb p)
  preserves q o Operator.div (some a) (some b) s i wa wb h =
      let (e, p, c) = run_binary d env q Operator.div a b s h in
      run-Keeps d env q e s _ c (div-Keeps d env q o a b e wa wb p)
  preserves q o Operator.assign a b s i wa wb h =
      assign-Preserves d env q o Operator.assign a b s h (assign_shape d env q a b s h)
  preserves q o Operator.passign a b s i wa wb h =
      assign-Preserves d env q o Operator.passign a b s h (passign_shape d env q a b s h)
  preserves q o Operator.fassign a b s i wa wb h =
      assign-Preserves d env q o Operator.fassign a b s h (fassign_shape d env q a b s h)
  preserves q o Operator.add none b s i wa wb h = absurd (missing_first q Operator.add b s tt h)
  preserves q o Operator.add (some a) none s i wa wb h =
      absurd (missing_second q Operator.add a s tt h)
  preserves q o Operator.sub none b s i wa wb h = absurd (missing_first q Operator.sub b s tt h)
  preserves q o Operator.sub (some a) none s i wa wb h =
      absurd (missing_second q Operator.sub a s tt h)
  preserves q o Operator.mul none b s i wa wb h = absurd (missing_first q Operator.mul b s tt h)
  preserves q o Operator.mul (some a) none s i wa wb h =
      absurd (missing_second q Operator.mul a s tt h)
  preserves q o Operator.div none b s i wa wb h = absurd (missing_first q Operator.div b s tt h)
  preserves q o Operator.div (some a) none s i wa wb h =
      absurd (missing_second q Operator.div a s tt h)
  preserves q o Operator.fadd a b s i wa wb h = absurd i
  preserves q o Operator.fsub a b s i wa wb h = absurd i
  preserves q o Operator.fmul a b s i wa wb h = absurd i
  preserves q o Operator.fdiv a b s i wa wb h = absurd i
  preserves q o op a b s i wa wb h = Agrees-of_eq s _ h

-- When a quadruple of any operator but FADD, FSUB, FMUL and FDIV runs, in a store of 32-bit words,
-- ArithmeticIdentities does not fail on it, and the quadruple that it leaves runs to the same store
-- and takes the same jump.
pub run-arithmetic_identities :
    {D : Type 0} (d : Doubles D) (env : ℕ → Value D) (q : Quadruple D) (optimized : Bool)
    (s : (ℕ → Value D) × Bool)
    → IsInteger q.op
    → IsWordOperand env q.arg1
    → IsWordOperand env q.arg2
    → run d env q ≡ some s
    → Preserves d env s (arithmetic_identities d q optimized)
run-arithmetic_identities d env q optimized s i wa wb h =
    preserves d env q optimized q.op q.arg1 q.arg2 s i wa wb h
