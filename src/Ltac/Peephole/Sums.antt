-- ===== src/Ltac/Peephole/Sums.antt =====
-- ADD, SUB and MOV, whose second argument is a literal or a register.
use eddic.Prelude.{
  ℕ, ◌>>=◌, ◌≡◌, refl, sym, ap, ◌∙◌, arith, Option, none, some, ◌==◌, if◌then◌else◌,
}
use eddic.Word.Laws.{add_zero_lem, sub_zero_lem}
use eddic.Word.Digits.{bit_xor_self}
use eddic.Word.{minus_one}
use eddic.Mtac.Quadruple.{Size, default}
use eddic.Word
use eddic.Ltac.Instruction.{Operator, Argument, Instruction, register, int}
use eddic.Ltac.Peephole.{optimize_sum, optimize_mov}
use eddic.Ltac.Machine.{
  Machine, Target, run, run_operator, binary, move, multiply3, compare, read, put, put_result,
  IsWords, Agrees, AgreesButFlags,
}
use eddic.Ltac.Peephole.Relate.{instr, but_flags, same, results, unchanged, RunsAs, of_some, under}

sub_one_lem : (a : ℕ) → Word.IsWord a → Word.sub a 1 ≡ Word.add a minus_one
unfolding Word.sub Word.add
sub_one_lem a h = omega arith

sub_minus_one_lem : (a : ℕ) → Word.IsWord a → Word.sub a minus_one ≡ Word.add a 1
unfolding Word.sub Word.add
sub_minus_one_lem a h = omega arith

module _ {M : Type 0} (t : Target M) where
  -- ADD and SUB: what the two operators have in common
  sum_int :
      (f : ℕ → ℕ → ℕ) (o : Operator) (to_inc to_dec : ℕ) (i : Instruction) (r v : ℕ) (m : Machine M)
      → f (m.registers r) 0 ≡ m.registers r
      → f (m.registers r) to_inc ≡ Word.add (m.registers r) 1
      → f (m.registers r) to_dec ≡ Word.add (m.registers r) minus_one
      → run t (instr i o (some (register r)) (some (int v))) m
        ≡ some (put_result r (f (m.registers r) v) m)
      → RunsAs t Agrees
          (optimize_sum to_inc to_dec
            (instr i o (some (register r)) (some (int v)))
            (some (register r))
            (some (int v)))
          m
          (put_result r (f (m.registers r) v) m)
  unfolding optimize_sum run run_operator
  sum_int f o to_inc to_dec i r v m h0 h1 h2 k =
      let value = f (m.registers r) in
      under t Agrees v 0 _ _ m _ (λ e. (m, refl, unchanged r _ m (ap value e ∙ h0)))
        (under t Agrees v to_inc _ _ m _ (λ e. (_, refl, results r _ _ m (ap value e ∙ h1)))
          (under t Agrees v to_dec _ _ m _ (λ e. (_, refl, results r _ _ m (ap value e ∙ h2)))
            (_, k, same _)))

  sum_lem :
      (f : ℕ → ℕ → ℕ) (o : Operator) (to_inc to_dec : ℕ) (i : Instruction) (a b : Option Argument)
      (m n : Machine M)
      → ((r : ℕ) → f (m.registers r) 0 ≡ m.registers r)
      → ((r : ℕ) → f (m.registers r) to_inc ≡ Word.add (m.registers r) 1)
      → ((r : ℕ) → f (m.registers r) to_dec ≡ Word.add (m.registers r) minus_one)
      → run t (instr i o a b) m ≡ binary t f (instr i o a b) m a b
      → run t (instr i o a b) m ≡ some n
      → RunsAs t Agrees (optimize_sum to_inc to_dec (instr i o a b) a b) m n
  unfolding optimize_sum binary
  sum_lem f o to_inc to_dec i none b m n h0 h1 h2 w k = cc
  sum_lem f o to_inc to_dec i (some (register r)) none m n h0 h1 h2 w k = cc
  sum_lem f o to_inc to_dec i (some (register r)) (some (int v)) m n h0 h1 h2 w k =
      of_some t Agrees _ m (sym w ∙ k) (sum_int f o to_inc to_dec i r v m (h0 r) (h1 r) (h2 r) w)
  sum_lem f o to_inc to_dec i (some (register r)) (some b) m n h0 h1 h2 w k = (n, k, same n)
  sum_lem f o to_inc to_dec i (some a) b m n h0 h1 h2 w k = (n, k, same n)

  mov_int :
      (i : Instruction) (r v : ℕ) (m : Machine M)
      → run t (instr i Operator.mov (some (register r)) (some (int v))) m ≡ some (put r v m)
      → RunsAs t AgreesButFlags
          (optimize_mov
            (instr i Operator.mov (some (register r)) (some (int v)))
            (some (register r))
            (some (int v)))
          m
          (put r v m)
  unfolding optimize_mov run run_operator binary
  mov_int i r v m k =
      under t AgreesButFlags v 0 _ _ m _
        (λ e. (
          _,
          refl,
          record {
            registers_agree = λ x.
                ap (λ v. if x == r then v else m.registers x)
                  (e ∙ sym (bit_xor_self (m.registers r)));
            pseudo_agree = λ x. refl;
            memory_agrees = refl;
          },
        ))
        (_, k, but_flags (same _))

  mov_register :
      (i : Instruction) (r s : ℕ) (m : Machine M)
      → run t (instr i Operator.mov (some (register r)) (some (register s))) m
        ≡ some (put r (m.registers s) m)
      → RunsAs t AgreesButFlags
          (optimize_mov
            (instr i Operator.mov (some (register r)) (some (register s)))
            (some (register r))
            (some (register s)))
          m
          (put r (m.registers s) m)
  unfolding optimize_mov run run_operator
  mov_register i r s m k =
      under t AgreesButFlags r s _ _ m _
        (λ e. (
          m,
          refl,
          record {
            registers_agree = λ x. ground arith;
            pseudo_agree = λ x. refl;
            memory_agrees = refl;
          },
        ))
        (_, k, but_flags (same _))

  -- A literal or a register is moved in the default size only.
  int_moved :
      (size : Size) (r v : ℕ) (m n : Machine M)
      → (read t m size (int v) >>= λ v. some (put r v m)) ≡ some n
      → some (put r v m) ≡ some n
  int_moved default r v m n h = h
  int_moved size r v m n h = cc

  register_moved :
      (size : Size) (r s : ℕ) (m n : Machine M)
      → (read t m size (register s) >>= λ v. some (put r v m)) ≡ some n
      → some (put r (m.registers s) m) ≡ some n
  register_moved default r s m n h = h
  register_moved size r s m n h = cc

  pub mov_runs :
      (i : Instruction) (a b : Option Argument) (m n : Machine M)
      → IsWords m
      → run t (instr i Operator.mov a b) m ≡ some n
      → RunsAs t AgreesButFlags (optimize_mov (instr i Operator.mov a b) a b) m n
  unfolding optimize_mov run run_operator binary multiply3 compare move
  mov_runs i none b m n w k = cc
  mov_runs i (some (register r)) none m n w k = cc
  mov_runs i (some (register r)) (some (int v)) m n w k =
      let e = int_moved i.size r v m n k in
      of_some t AgreesButFlags
        (optimize_mov (instr i Operator.mov (some (register r)) (some (int v))) (some (register r))
          (some (int v)))
        m e (mov_int i r v m (k ∙ sym e))
  mov_runs i (some (register r)) (some (register s)) m n w k =
      let e = register_moved i.size r s m n k in
      of_some t AgreesButFlags
        (optimize_mov (instr i Operator.mov (some (register r)) (some (register s)))
          (some (register r)) (some (register s)))
        m e (mov_register i r s m (k ∙ sym e))
  mov_runs i (some (register r)) (some b) m n w k = (n, k, but_flags (same n))
  mov_runs i (some a) b m n w k = (n, k, but_flags (same n))

  pub add_runs :
      (i : Instruction) (a b : Option Argument) (m n : Machine M)
      → IsWords m
      → run t (instr i Operator.add a b) m ≡ some n
      → RunsAs t Agrees (optimize_sum 1 minus_one (instr i Operator.add a b) a b) m n
  unfolding run run_operator
  add_runs i a b m n w k =
      sum_lem Word.add Operator.add 1 minus_one i a b m n
        (λ r. add_zero_lem (m.registers r) (w r).0) (λ r. refl) (λ r. refl) refl k

  pub sub_runs :
      (i : Instruction) (a b : Option Argument) (m n : Machine M)
      → IsWords m
      → run t (instr i Operator.sub a b) m ≡ some n
      → RunsAs t Agrees (optimize_sum minus_one 1 (instr i Operator.sub a b) a b) m n
  unfolding run run_operator
  sub_runs i a b m n w k =
      sum_lem Word.sub Operator.sub minus_one 1 i a b m n
        (λ r. sub_zero_lem (m.registers r) (w r).0) (λ r. sub_minus_one_lem (m.registers r) (w r).0)
        (λ r. sub_one_lem (m.registers r) (w r).0) refl k
