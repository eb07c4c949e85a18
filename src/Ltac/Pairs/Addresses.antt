-- ===== src/Ltac/Pairs/Addresses.antt =====
-- src/ltac/PeepholeOptimizer.cpp: a MOV and an ADD to one register run as the LEA they become.
use Prim.Native.String.{String}
use eddic.Prelude.{
  ℕ, ◌≡◌, refl, sym, ap, ◌∙◌, arith, Bool, true, false, Option, none, some, ◌==◌, inl, inr,
  Bool-cases, ==_iff, >>=-eq-some,
}
use eddic.Word
use eddic.Mtac.Quadruple.{Size, default}
use eddic.Ltac.Instruction.{Operator, Argument, Instruction, Address, register, literal, int}
use eddic.Ltac.Pairs.{combine_address, on_registers, displaced, label_address, lea_second}
use eddic.Ltac.Pairs.Sums.{run_pair, RunsAsPair}
use eddic.Ltac.Pairs.Moves.{move_first, move_second, move_register}
use eddic.Ltac.Machine.{
  Machine, Target, run, run_operator, binary, move, put, put_result, effective, load_address, read,
  Agrees,
}
use eddic.Ltac.Peephole.Relate.{instr, same}

displaced_value : (x n : ℕ) → Word.add (Word.add x (Word.mul 0 1)) (Word.add n 0) ≡ Word.add x n
unfolding Word.add Word.mul
displaced_value x n = omega arith

label_value_lem : (x n : ℕ) → Word.add (Word.add 0 (Word.mul 0 1)) (Word.add n x) ≡ Word.add x n
unfolding Word.add Word.mul
label_value_lem x n = omega arith

module _ {M : Type 0} (t : Target M) where
  read_literal :
      (m : Machine M) (size : Size) (s : String) (v : ℕ)
      → read t m size (literal s) ≡ some v
      → v ≡ t.symbol s
  read_literal m default s v h = cc
  read_literal m _ s v h = cc

  move_literal :
      (i : Instruction) (r : ℕ) (s : String) (m n : Machine M)
      → run t (instr i Operator.mov (some (register r)) (some (literal s))) m ≡ some n
      → n ≡ put r (t.symbol s) m
  unfolding run run_operator move
  move_literal i r s m n h =
      let (v, e, k) = >>=-eq-some (read t m i.size (literal s)) (λ v. some (put r v m)) h in
      let f : put r v m ≡ n = cc in sym f ∙ ap (λ v. put r v m) (read_literal m i.size s v e)

  -- The register holds `v`, and then `v + n`: or that at once.
  summed :
      (r v n w : ℕ) (m : Machine M)
      → w ≡ Word.add v n
      → Agrees (put_result r (Word.add ((put r v m).registers r) n) (put r v m)) (put r w m)
  summed r v n w m e = record {
    registers_agree = λ x. elim (Bool-cases (x == r)) [
      | inl here ↦ ground (arith, here, e)
      | inr there ↦ ground (arith, there)
    ];
    pseudo_agree = λ x. refl;
    memory_agrees = refl;
    flags_agree = inl refl;
  }

  add_int :
      (i : Instruction) (r c : ℕ) (m k : Machine M)
      → run t (instr i Operator.add (some (register r)) (some (int c))) m ≡ some k
      → put_result r (Word.add (m.registers r) c) m ≡ k
  unfolding run run_operator binary
  add_int i r c m k h = cc

  -- LEA puts the same value in the register.
  lea_runs :
      (i1 i2 : Instruction) (a : Address) (r v c w : ℕ) (m n k : Machine M)
      → n ≡ put r v m
      → run t (instr i2 Operator.add (some (register r)) (some (int c))) n ≡ some k
      → effective t m a ≡ some w
      → w ≡ Word.add v c
      → RunsAsPair t
          (lea_second i1 (instr i2 Operator.add (some (register r)) (some (int c))) a)
          m
          k
  unfolding run run_operator load_address
  lea_runs i1 i2 a r v c w m n k moved added e f =
      rw (e, ← add_int i2 r c n k added, moved) (_, refl, summed r v c w m f)

  at_registers :
      (i1 i2 : Instruction) (r s : ℕ) (one : Bool) (a2 b2 : Option Argument) (m n k : Machine M)
      → (one ≡ true → r ≡ s)
      → run t (instr i1 Operator.mov (some (register r)) a2) m ≡ some n
      → run t (instr i2 Operator.add (some (register s)) b2) n ≡ some k
      → run_pair t
          (instr i1 Operator.mov (some (register r)) a2)
          (instr i2 Operator.add (some (register s)) b2)
          m
        ≡ some k
      → RunsAsPair t
          (combine_address
            (instr i1 Operator.mov (some (register r)) a2)
            (instr i2 Operator.add (some (register s)) b2)
            one
            a2
            b2)
          m
          k
  unfolding combine_address effective run run_operator binary
  at_registers i1 i2 r s false a2 b2 m n k o e f h = (k, h, same k)
  at_registers i1 i2 r s true none b2 m n k o e f h = absurd (move_second t i1 (register r) m n e)
  at_registers i1 i2 r s true (some (register x)) (some (int c)) m n k o e f h =
      lea_runs (instr i1 Operator.mov (some (register r)) (some (register x))) i2 (displaced x c) s
        (m.registers x) c _ m n k
        (move_register t i1 r x m n e ∙ ap (λ y. put y (m.registers x) m) (o refl)) f refl
        (displaced_value (m.registers x) c)
  at_registers i1 i2 r s true (some (literal x)) (some (int c)) m n k o e f h =
      lea_runs (instr i1 Operator.mov (some (register r)) (some (literal x))) i2 (label_address x c)
        s (t.symbol x) c _ m n k
        (move_literal i1 r x m n e ∙ ap (λ y. put y (t.symbol x) m) (o refl)) f refl
        (label_value_lem (t.symbol x) c)
  at_registers i1 i2 r s true (some (register x)) none m n k o e f h = cc
  at_registers i1 i2 r s true (some (literal x)) none m n k o e f h = cc
  at_registers i1 i2 r s true a2 b2 m n k o e f h = (k, h, same k)

  pub address_pair_runs :
      (i1 i2 : Instruction) (a1 b1 a2 b2 : Option Argument) (m n k : Machine M)
      → run t (instr i1 Operator.mov a1 a2) m ≡ some n
      → run t (instr i2 Operator.add b1 b2) n ≡ some k
      → run_pair t (instr i1 Operator.mov a1 a2) (instr i2 Operator.add b1 b2) m ≡ some k
      → RunsAsPair t
          (on_registers (instr i1 Operator.mov a1 a2) (instr i2 Operator.add b1 b2) a1 b1 (λ one.
            combine_address (instr i1 Operator.mov a1 a2) (instr i2 Operator.add b1 b2) one a2 b2))
          m
          k
  unfolding run run_operator binary
  address_pair_runs i1 i2 none b1 a2 b2 m n k e f h = absurd (move_first t i1 a2 m n e)
  address_pair_runs i1 i2 (some (register r)) none a2 b2 m n k e f h = cc
  address_pair_runs i1 i2 (some (register r)) (some (register s)) a2 b2 m n k e f h =
      at_registers i1 i2 r s (r == s) a2 b2 m n k (==_iff r s).0 e f h
  address_pair_runs i1 i2 a1 b1 a2 b2 m n k e f h = (k, h, same k)
