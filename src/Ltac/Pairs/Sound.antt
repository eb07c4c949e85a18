-- ===== src/Ltac/Pairs/Sound.antt =====
-- src/ltac/PeepholeOptimizer.cpp: what multiple_statement_optimizations and
-- multiple_statement_optimizations_second leave of two instructions, against the two.
use eddic.Prelude.{both, not_true, ◌||◌, ◌≡◌, Bool, true, false, ◌&&◌, Option, some, >>=-eq-some}
use mathlib.Core.Bool.{not}
use eddic.Word
use eddic.Ltac.Instruction.{Operator, Argument, Instruction}
use eddic.Ltac.Pairs.{optimize_operators, multiple_statement_optimizations}
use eddic.Ltac.Pairs.Sums.{
  run_pair, RunsAsPair, IsWordArgument, sum_pair_runs, add_runs, sub_runs, add_add_lem, sub_sub_lem,
}
use eddic.Platform.{Platform}
use eddic.Ltac.Pairs.Second.{forward_operators, multiple_statement_optimizations_second}
use eddic.Ltac.Pairs.Forward.{is_hard, forward_mov_runs}
use eddic.Ltac.Pairs.Moves.{is_register, is_address, mov_pair_runs}
use eddic.Ltac.Pairs.Addresses.{address_pair_runs}
use eddic.Ltac.Machine.{Machine, Target, run}
use eddic.Ltac.Peephole.Relate.{instr, same}

-- Not what follows a RET, LEAVE and LEAVE, POP and PUSH, PUSH and POP, MOV and PUSH. Two MOV, if
-- the first has its destination in no memory, and its source is read from an address of hard registers
-- only if the second goes to a register.
abbrev pub is_covered :
    Operator → Operator → Option Argument → Option Argument → Option Argument → Bool
is_covered Operator.ret o a1 a2 b1 = false
is_covered Operator.leave Operator.leave a1 a2 b1 = false
is_covered Operator.pop Operator.push a1 a2 b1 = false
is_covered Operator.push Operator.pop a1 a2 b1 = false
is_covered Operator.mov Operator.push a1 a2 b1 = false
is_covered Operator.mov Operator.mov a1 a2 b1 =
    not (is_address a1) && (is_hard a2 && (not (is_address a2) || is_register b1))
is_covered _ _ a1 a2 b1 = true

module _ {M : Type 0} (t : Target M) where
  by_operators :
      (o1 o2 : Operator) (i1 i2 : Instruction) (a1 b1 a2 b2 : Option Argument) (m k : Machine M)
      → is_covered o1 o2 a1 a2 b1 ≡ true
      → IsWordArgument a2
      → IsWordArgument b2
      → run_pair t (instr i1 o1 a1 a2) (instr i2 o2 b1 b2) m ≡ some k
      → RunsAsPair t (optimize_operators o1 o2 (instr i1 o1 a1 a2) (instr i2 o2 b1 b2)) m k
  unfolding optimize_operators
  by_operators Operator.ret o i1 i2 a1 b1 a2 b2 m k c wa wb h = cc
  by_operators Operator.leave Operator.leave i1 i2 a1 b1 a2 b2 m k c wa wb h = cc
  by_operators Operator.pop Operator.push i1 i2 a1 b1 a2 b2 m k c wa wb h = cc
  by_operators Operator.push Operator.pop i1 i2 a1 b1 a2 b2 m k c wa wb h = cc
  by_operators Operator.add Operator.add i1 i2 a1 b1 a2 b2 m k c wa wb h =
      sum_pair_runs t Operator.add Word.add i1 i2 a1 b1 a2 b2 m k (add_runs t)
        (λ x c d u v. add_add_lem x c d) wa wb h
  by_operators Operator.sub Operator.sub i1 i2 a1 b1 a2 b2 m k c wa wb h =
      sum_pair_runs t Operator.sub Word.sub i1 i2 a1 b1 a2 b2 m k (sub_runs t) sub_sub_lem wa wb h
  by_operators Operator.mov Operator.push i1 i2 a1 b1 a2 b2 m k c wa wb h = cc
  by_operators Operator.mov Operator.mov i1 i2 a1 b1 a2 b2 m k c wa wb h =
      let (x, rest) = both (not (is_address a1)) _ c in
      let (y, z) = both (is_hard a2) _ rest in
      mov_pair_runs t i1 i2 a1 a2 b1 b2 m k (not_true _ x) z h
  by_operators Operator.mov Operator.add i1 i2 a1 b1 a2 b2 m k c wa wb h =
      let (n, first, second) = >>=-eq-some (run t (instr i1 Operator.mov a1 a2) m) _ h in
      address_pair_runs t i1 i2 a1 b1 a2 b2 m n k first second h
  by_operators _ _ i1 i2 a1 b1 a2 b2 m k c wa wb h = (k, h, same k)

  by_operators_second :
      (p : Platform) (o1 o2 : Operator) (i1 i2 : Instruction) (a1 b1 a2 b2 : Option Argument)
      (m k : Machine M)
      → is_covered o1 o2 a1 a2 b1 ≡ true
      → run_pair t (instr i1 o1 a1 a2) (instr i2 o2 b1 b2) m ≡ some k
      → RunsAsPair t (forward_operators p o1 o2 (instr i1 o1 a1 a2) (instr i2 o2 b1 b2)) m k
  unfolding forward_operators
  by_operators_second p Operator.mov Operator.push i1 i2 a1 b1 a2 b2 m k c h = cc
  by_operators_second p Operator.mov Operator.mov i1 i2 a1 b1 a2 b2 m k c h =
      let (x, rest) = both (not (is_address a1)) _ c in
      let (y, z) = both (is_hard a2) _ rest in
      let (n, first, second) = >>=-eq-some (run t (instr i1 Operator.mov a1 a2) m) _ h in
      forward_mov_runs t p i1 i2 a1 a2 b1 b2 m n k y first second h
  by_operators_second p _ _ i1 i2 a1 b1 a2 b2 m k c h = (k, h, same k)

  -- Take two instructions that run one after the other, to `k`, whose second arguments are words if
  -- they are ints. They are not: a RET and what follows it, two LEAVE, a POP and a PUSH, a PUSH and a
  -- POP, or a MOV and a PUSH. Of two MOV, the destination of the first is not in memory, and its source
  -- has no pseudo register in an address, and is in memory only if the second MOV goes to a register.
  -- Then multiple_statement_optimizations returns two instructions, and so does
  -- multiple_statement_optimizations_second on both platforms; either two run to a machine with the
  -- registers, the memory and the flags of `k`, where only flags that no jump may read may differ.
  pub multiple_statement_optimizations_lem :
      (p : Platform) (i1 i2 : Instruction) (m k : Machine M)
      → is_covered i1.op i2.op i1.arg1 i1.arg2 i2.arg1 ≡ true
      → IsWordArgument i1.arg2
      → IsWordArgument i2.arg2
      → run_pair t i1 i2 m ≡ some k
      → RunsAsPair t (multiple_statement_optimizations i1 i2) m k
        × RunsAsPair t (multiple_statement_optimizations_second p i1 i2) m k
  unfolding multiple_statement_optimizations multiple_statement_optimizations_second
  multiple_statement_optimizations_lem p i1 i2 m k c wa wb h = (
    by_operators i1.op i2.op i1 i2 i1.arg1 i2.arg1 i1.arg2 i2.arg2 m k c wa wb h,
    by_operators_second p i1.op i2.op i1 i2 i1.arg1 i2.arg1 i1.arg2 i2.arg2 m k c h,
  )
