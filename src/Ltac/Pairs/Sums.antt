-- ===== src/Ltac/Pairs/Sums.antt =====
-- src/ltac/PeepholeOptimizer.cpp: two ADD, two SUB, a MOV and an ADD, and two MOV of registers run as
-- what is left of them.
use eddic.Prelude.{
  ℕ, ◌≡◌, refl, arith, Option, none, some, ◌==◌, inl, inr, Bool-cases, ==_iff, ◌>>=◌, >>=-eq-some,
}
use eddic.Word
use eddic.Word.{IsWord}
use eddic.Ltac.Instruction.{Operator, Argument, Instruction, register, int, nop_of}
use eddic.Ltac.Pairs.{RewrittenPair, combine_sums}
use eddic.Ltac.Machine.{Machine, Target, run, run_operator, binary, put_result, Agrees}
use eddic.Ltac.Peephole.Relate.{instr, same}

pub add_add_lem : (a n k : ℕ) → Word.add (Word.add a n) k ≡ Word.add a (Word.add n k)
unfolding Word.add
add_add_lem a n k = omega arith

pub sub_sub_lem :
    (a n k : ℕ) → IsWord n → IsWord k → Word.sub (Word.sub a n) k ≡ Word.sub a (Word.add n k)
unfolding Word.add Word.sub
sub_sub_lem a n k hn hk = omega arith

-- The argument of an instruction, if it is an int, is its bit pattern.
abbrev pub IsWordArgument : Option Argument → Type 0
IsWordArgument (some (int n)) = IsWord n
IsWordArgument _ = Unit

module _ {M : Type 0} (t : Target M) where
  -- Two instructions, one after the other.
  abbrev pub run_pair : Instruction → Instruction → Machine M → Option (Machine M)
  run_pair i1 i2 m = run t i1 m >>= run t i2

  -- The function returned two instructions that run as the first two did, to `k`.
  abbrev pub RunsAsPair : RewrittenPair → Machine M → Machine M → Type 0
  RunsAsPair none m k = ⊥
  RunsAsPair (some (j1, j2, o)) m k = (l : Machine M) × (run_pair j1 j2 m ≡ some l) × Agrees k l

  pub run_nop : (i : Instruction) (n : Machine M) → run t (nop_of i) n ≡ some n
  unfolding run run_operator
  run_nop i n = refl

  sums_agree :
      (f : ℕ → ℕ → ℕ) (r s n k : ℕ) (m : Machine M)
      → r ≡ s
      → f (f (m.registers r) n) k ≡ f (m.registers r) (Word.add n k)
      → Agrees
          (put_result s
            (f ((put_result r (f (m.registers r) n) m).registers s) k)
            (put_result r (f (m.registers r) n) m))
          (put_result r (f (m.registers r) (Word.add n k)) m)
  sums_agree f r s n k m e h = rw (← e) (record {
    registers_agree = λ x. elim (Bool-cases (x == r)) [
      | inl here ↦ ground (arith, here, h)
      | inr there ↦ ground (arith, there)
    ];
    pseudo_agree = λ x. refl;
    memory_agrees = refl;
    flags_agree = inl refl;
  })

  -- The two instructions run by `f`.
  abbrev pub RunsBy : Operator → (ℕ → ℕ → ℕ) → Type 0
  RunsBy o f =
      (i : Instruction) (a b : Option Argument) (m : Machine M)
      → run t (instr i o a b) m ≡ binary t f (instr i o a b) m a b

  to_constant :
      (o : Operator) (f : ℕ → ℕ → ℕ) (i : Instruction) (r n : ℕ) (m k : Machine M)
      → RunsBy o f
      → run t (instr i o (some (register r)) (some (int n))) m ≡ some k
      → k ≡ put_result r (f (m.registers r) n) m
  unfolding binary
  to_constant o f i r n m k by h = let e = by i (some (register r)) (some (int n)) m in cc

  pairs :
      (o : Operator) (f : ℕ → ℕ → ℕ) (i1 i2 : Instruction) (a1 b1 a2 b2 : Option Argument)
      (m n k : Machine M)
      → RunsBy o f
      → ((x c d : ℕ)
          → IsWordArgument (some (int c))
          → IsWordArgument (some (int d))
          → f (f x c) d ≡ f x (Word.add c d))
      → IsWordArgument a2
      → IsWordArgument b2
      → run t (instr i1 o a1 a2) m ≡ some n
      → run t (instr i2 o b1 b2) n ≡ some k
      → run_pair (instr i1 o a1 a2) (instr i2 o b1 b2) m ≡ some k
      → RunsAsPair (combine_sums (instr i1 o a1 a2) (instr i2 o b1 b2) a1 b1 a2 b2) m k
  unfolding combine_sums binary
  pairs o f i1 i2 none b1 a2 b2 m n k by law wa wb first second h = let e = by i1 none a2 m in cc
  pairs o f i1 i2 (some (register r)) none a2 b2 m n k by law wa wb first second h =
      let e = by i2 none b2 n in cc
  pairs o f i1 i2 (some (register r)) (some (register s)) none b2 m n k by law wa wb first second
        h =
      let e = by i1 (some (register r)) none m in cc
  pairs o f i1 i2 (some (register r)) (some (register s)) (some (int c)) none m n k by law wa wb
        first second h =
      let e = by i2 (some (register s)) none n in cc
  pairs o f i1 i2 (some (register r)) (some (register s)) (some (int c)) (some (int d)) m n k by law
        wa wb first second h =
      elim (Bool-cases (r == s)) [
        | inl one ↦
            rw (one, to_constant o f i2 s d n k by second, to_constant o f i1 r c m n by first)
              (
                put_result r (f (m.registers r) (Word.add c d)) m,
                rw (by i1 (some (register r)) (some (int (Word.add c d))) m, ◌>>=◌)
                    (run_nop (instr i2 o (some (register s)) (some (int d))) _),
                sums_agree f r s c d m ((==_iff r s).0 one) (law (m.registers r) c d wa wb),
              )
        | inr two ↦ rw two (k, h, same k)
      ]
  pairs o f i1 i2 a1 b1 a2 b2 m n k by law wa wb first second h = (k, h, same k)

  pub sum_pair_runs :
      (o : Operator) (f : ℕ → ℕ → ℕ) (i1 i2 : Instruction) (a1 b1 a2 b2 : Option Argument)
      (m k : Machine M)
      → RunsBy o f
      → ((x c d : ℕ)
          → IsWordArgument (some (int c))
          → IsWordArgument (some (int d))
          → f (f x c) d ≡ f x (Word.add c d))
      → IsWordArgument a2
      → IsWordArgument b2
      → run_pair (instr i1 o a1 a2) (instr i2 o b1 b2) m ≡ some k
      → RunsAsPair (combine_sums (instr i1 o a1 a2) (instr i2 o b1 b2) a1 b1 a2 b2) m k
  sum_pair_runs o f i1 i2 a1 b1 a2 b2 m k by law wa wb h =
      let (n, first, second) = >>=-eq-some (run t (instr i1 o a1 a2) m) _ h in
      pairs o f i1 i2 a1 b1 a2 b2 m n k by law wa wb first second h

  pub add_runs : RunsBy Operator.add Word.add
  unfolding run run_operator
  add_runs i a b m = refl

  pub sub_runs : RunsBy Operator.sub Word.sub
  unfolding run run_operator
  sub_runs i a b m = refl
