-- ===== src/Ltac/Peephole/Sound.antt =====
-- The rewrites of one instruction keep what it does.
use eddic.Prelude.{ℕ, ◌≡◌, refl, false, Option, none, some}
use eddic.Mtac.Quadruple.{default}
use eddic.Ltac.Instruction.{Operator, Argument, Instruction, register, int}
use eddic.Ltac.Peephole.{optimize_mov, optimize_operator, optimize_statement}
use eddic.Ltac.Machine.{Machine, Target, run, run_operator, binary, move, put, IsWords}
use eddic.Ltac.Peephole.Relate.{KeptBy, instr, same, RunsAs}
use eddic.Ltac.Peephole.Sums.{add_runs, sub_runs, mov_runs}
use eddic.Ltac.Peephole.Products.{mul2_runs, mul3_runs, cmp_runs}
use eddic.Ltac.Peephole.Addresses.{IsPlainArgument, lea_argument_runs}

abbrev pub IsPlain : Operator → Instruction → Type 0
IsPlain Operator.lea i = IsPlainArgument i.size i.arg2
IsPlain _ i = Unit

module _ {M : Type 0} (t : Target M) where
  runs :
      (o : Operator) (i : Instruction) (a b : Option Argument) (m n : Machine M)
      → IsWords m
      → IsPlain o (instr i o a b)
      → run t (instr i o a b) m ≡ some n
      → RunsAs t (KeptBy o) (optimize_operator o (instr i o a b)) m n
  unfolding optimize_operator
  runs Operator.add i a b m n w p k = add_runs t i a b m n w k
  runs Operator.sub i a b m n w p k = sub_runs t i a b m n w k
  runs Operator.mov i a b m n w p k = mov_runs t i a b m n w k
  runs Operator.mul2 i a b m n w p k = mul2_runs t i a b m n w k
  runs Operator.mul3 i a b m n w p k = mul3_runs t i a b m n w k
  runs Operator.cmp_int i a b m n w p k = cmp_runs t i a b m n w k
  runs Operator.lea i a b m n w p k = lea_argument_runs t i a b m n w p k
  runs o i a b m n w p k = (n, k, same n)

  -- When an instruction runs, in registers of 32-bit words, optimize_statement does not fail on it, and
  -- the instruction that it leaves runs to the same registers and memory, and to the same flags unless
  -- the instruction is a MOV or leaves flags that no jump may read; an LEA is of the default size, and
  -- its address has no label beside a base register.
  pub run-optimize_statement :
      (i : Instruction) (m n : Machine M)
      → IsWords m
      → IsPlain i.op i
      → run t i m ≡ some n
      → RunsAs t (KeptBy i.op) (optimize_statement i) m n
  unfolding optimize_statement
  run-optimize_statement i m n w p k = runs i.op i i.arg1 i.arg2 m n w p k

  -- A MOV of 0 to a register leaves the flags as they are; optimize_statement makes of it an
  -- instruction that leaves no flags for a jump.
  optimize_statement-flags :
      (i : Instruction) (r : ℕ) (m : Machine M)
      → i.size ≡ default
      → RunsAs t
          (λ n k. n.flags ≡ k.flags)
          (some (instr i Operator.mov (some (register r)) (some (int 0)), false))
          m
          m
        × RunsAs t
            (λ n k. k.flags ≡ none)
            (optimize_statement (instr i Operator.mov (some (register r)) (some (int 0))))
            m
            m
  unfolding optimize_statement optimize_operator optimize_mov run run_operator binary move
  optimize_statement-flags i r m d = ((put r 0 m, rw d refl, refl), (_, refl, refl))
