-- ===== src/Ltac/Peephole/Products.antt =====
-- Products by a literal, and comparisons with 0.
use eddic.Prelude.{
  ℕ, ◌^◌, ◌+◌, ◌*◌, ◌≡◌, refl, sym, ap, ◌∙◌, arith, Bool, true, false, Option, none, some, ◌==◌,
  inl, inr, Bool-cases, ltb,
}
use eddic.Word.Digits.{bit_or_self}
use eddic.Word.{minus_one}
use eddic.Mtac.Strength.{is_power_of_two, power_of_two}
use eddic.Mtac.Strength.Powers.{is_power_of_two_iff, power_of_two-power}
use eddic.Word
use eddic.Ltac.Instruction.{Operator, Argument, Instruction, register, int}
use eddic.Ltac.Peephole.{optimize_mul, optimize_cmp}
use eddic.Ltac.Machine.{
  Machine, Target, Flags, run, run_operator, binary, move, multiply3, compare, or_op, load_address,
  effective, put, put_result, compared, tested, IsWords, Agrees,
}
use eddic.Ltac.Peephole.Relate.{instr, same, results, of_result, RunsAs, of_some, under}

-- The address that an LEA computes instead of a product.
multiply_by :
    (a k n : ℕ) → n ≡ k + 1 → Word.mul a n ≡ Word.add (Word.add a (Word.mul a k)) (Word.add 0 0)
unfolding Word.add Word.mul
multiply_by a k n e =
    let product : a * n ≡ a + a * k = ap (λ n. a * n) e ∙ grind arith in rw product (omega arith)

abbrev the_flags : Bool → Bool → Bool → Flags
the_flags z l b = record { zero = z; less = l; below = b }

-- OR of a register with itself sets the flags as a comparison with 0 does.
less_zero : (a : ℕ) → Word.IsWord a → Word.less a 0 ≡ Word.is_negative a
unfolding Word.less
less_zero a h = ground arith

below_zero : (a : ℕ) → ltb a 0 ≡ false
below_zero a = ground arith

flags_lem :
    (a : ℕ)
    → Word.IsWord a
    → (the_flags (a == 0) (Word.less a 0) (ltb a 0)) ≡ the_flags (a == 0) (Word.is_negative a) false
flags_lem a h = rw (less_zero a h, below_zero a) refl

module _ {M : Type 0} (t : Target M) where
  -- MUL by a literal
  power_lem :
      (r v : ℕ) (m : Machine M)
      → is_power_of_two v ≡ true
      → Word.mul (m.registers r) v ≡ Word.mul (m.registers r) (2 ^ power_of_two v)
  power_lem r v m h =
      let (k, e, small) = (is_power_of_two_iff v).0 h in
      ap (Word.mul (m.registers r)) (
        e
        ∙ ap (λ k. 2 ^ k)
            (sym (power_of_two-power k (omega (arith, e, small))) ∙ ap power_of_two (sym e)))

  mul_int :
      (i : Instruction) (r v : ℕ) (m : Machine M)
      → IsWords m
      → run t (instr i Operator.mul2 (some (register r)) (some (int v))) m
        ≡ some (put_result r (Word.mul (m.registers r) v) m)
      → RunsAs t Agrees
          (optimize_mul
            (instr i Operator.mul2 (some (register r)) (some (int v)))
            (some (register r))
            (some (int v)))
          m
          (put_result r (Word.mul (m.registers r) v) m)
  unfolding optimize_mul run run_operator binary load_address effective
  mul_int i r v m w k = elim (Bool-cases (is_power_of_two v)) [
    | inl power ↦ rw power (_, refl, results r _ _ m (power_lem r v m power))
    | inr other ↦ rw other (
        under t Agrees v 3 _ _ m _
          (λ e. (_, refl, of_result r _ _ m (multiply_by (m.registers r) 2 v e)))
          (under t Agrees v 5 _ _ m _
            (λ e. (_, refl, of_result r _ _ m (multiply_by (m.registers r) 4 v e)))
            (under t Agrees v 9 _ _ m _
              (λ e. (_, refl, of_result r _ _ m (multiply_by (m.registers r) 8 v e)))
              (_, k, same _))))
  ]

  pub mul2_runs :
      (i : Instruction) (a b : Option Argument) (m n : Machine M)
      → IsWords m
      → run t (instr i Operator.mul2 a b) m ≡ some n
      → RunsAs t Agrees (optimize_mul (instr i Operator.mul2 a b) a b) m n
  unfolding optimize_mul run run_operator binary multiply3 compare move
  mul2_runs i none b m n w k = cc
  mul2_runs i (some (register r)) none m n w k = cc
  mul2_runs i (some (register r)) (some (int v)) m n w k =
      of_some t Agrees
        (optimize_mul (instr i Operator.mul2 (some (register r)) (some (int v))) (some (register r))
          (some (int v)))
        m k (mul_int i r v m w refl)
  mul2_runs i (some (register r)) (some b) m n w k = (n, k, same n)
  mul2_runs i (some a) b m n w k = (n, k, same n)

  pub mul3_runs :
      (i : Instruction) (a b : Option Argument) (m n : Machine M)
      → IsWords m
      → run t (instr i Operator.mul3 a b) m ≡ some n
      → RunsAs t Agrees (optimize_mul (instr i Operator.mul3 a b) a b) m n
  unfolding optimize_mul run run_operator binary multiply3 compare move
  mul3_runs i none b m n w k = cc
  mul3_runs i (some (register r)) none m n w k = cc
  mul3_runs i (some (register r)) (some (int v)) m n w k = cc
  mul3_runs i (some (register r)) (some b) m n w k = (n, k, same n)
  mul3_runs i (some a) b m n w k = (n, k, same n)

  tested_lem :
      (r v w : ℕ) (m : Machine M)
      → Word.IsWord (m.registers r)
      → v ≡ 0
      → w ≡ m.registers r
      → Agrees (compared (m.registers r) v m) (tested w (put r w m))
  tested_lem r v w m h e k = record {
    registers_agree = λ x. ground arith;
    pseudo_agree = λ x. refl;
    memory_agrees = refl;
    flags_agree = inr (
        ap
          (λ v.
            some (
              the_flags (m.registers r == v) (Word.less (m.registers r) v) (ltb (m.registers r) v)))
          e
        ∙ ap some (flags_lem (m.registers r) h)
        ∙ ap (λ w. some (the_flags (w == 0) (Word.is_negative w) false)) (sym k));
  }

  cmp_int_lem :
      (i : Instruction) (r v : ℕ) (m : Machine M)
      → IsWords m
      → run t (instr i Operator.cmp_int (some (register r)) (some (int v))) m
        ≡ some (compared (m.registers r) v m)
      → RunsAs t Agrees
          (optimize_cmp
            (instr i Operator.cmp_int (some (register r)) (some (int v)))
            (some (register r))
            (some (int v)))
          m
          (compared (m.registers r) v m)
  unfolding optimize_cmp run run_operator or_op
  cmp_int_lem i r v m w k =
      under t Agrees v 0 _ _ m _
        (λ e. (_, refl, tested_lem r v _ m (w r).0 e (bit_or_self (m.registers r)))) (_, k, same _)

  pub cmp_runs :
      (i : Instruction) (a b : Option Argument) (m n : Machine M)
      → IsWords m
      → run t (instr i Operator.cmp_int a b) m ≡ some n
      → RunsAs t Agrees (optimize_cmp (instr i Operator.cmp_int a b) a b) m n
  unfolding optimize_cmp run run_operator binary multiply3 compare move
  cmp_runs i none b m n w k = cc
  cmp_runs i (some (register r)) none m n w k = cc
  cmp_runs i (some (register r)) (some (int v)) m n w k =
      of_some t Agrees
        (optimize_cmp (instr i Operator.cmp_int (some (register r)) (some (int v)))
          (some (register r)) (some (int v)))
        m k (cmp_int_lem i r v m w refl)
  cmp_runs i (some (register r)) (some b) m n w k = (n, k, same n)
  cmp_runs i (some a) b m n w k = (n, k, same n)
