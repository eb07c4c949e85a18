-- ===== src/Ltac/Peephole/Relate.antt =====
-- What the proofs about the rewrites share: when a rewritten instruction runs as the first one did.
use eddic.Prelude.{
  ℕ, ◌≡◌, refl, ap, arith, Option, none, some, ◌==◌, inl, inr, Bool-cases, ==_iff, if◌then◌else◌,
}
use mathlib.Core.Path.{subst}
use mathlib.Core.Option.{some-injective}
use eddic.Ltac.Instruction.{Operator, Argument, Instruction}
use eddic.Ltac.Peephole.{Rewritten}
use eddic.Ltac.Machine.{Machine, Target, run, put, put_result, Agrees, AgreesButFlags}

-- MOV may be rewritten to XOR, which sets the flags.
abbrev pub KeptBy : {M : Type 0} → Operator → Machine M → Machine M → Type 0
KeptBy Operator.mov m n = AgreesButFlags m n
KeptBy _ m n = Agrees m n

abbrev pub instr : Instruction → Operator → Option Argument → Option Argument → Instruction
instr i o a b = record i { op = o; arg1 = a; arg2 = b }

pub but_flags : {M : Type 0} → {m n : Machine M} → Agrees m n → AgreesButFlags m n
but_flags a = record {
  registers_agree = a.registers_agree;
  pseudo_agree = a.pseudo_agree;
  memory_agrees = a.memory_agrees;
}

pub same : {M : Type 0} → (m : Machine M) → Agrees m m
same m = record {
  registers_agree = λ r. refl;
  pseudo_agree = λ r. refl;
  memory_agrees = refl;
  flags_agree = inr refl;
}

pub results :
    {M : Type 0}
    → (r v w : ℕ) (m : Machine M) → v ≡ w
    → Agrees (put_result r v m) (put_result r w m)
results r v w m h = record {
  registers_agree = λ x. ap (λ v. if x == r then v else m.registers x) h;
  pseudo_agree = λ x. refl;
  memory_agrees = refl;
  flags_agree = inl refl;
}

-- A result that the register holds already, and one with an operator that keeps the flags.
pub unchanged :
    {M : Type 0} → (r v : ℕ) (m : Machine M) → v ≡ m.registers r → Agrees (put_result r v m) m
unchanged r v m h = record {
  registers_agree = λ x. ground arith;
  pseudo_agree = λ x. refl;
  memory_agrees = refl;
  flags_agree = inl refl;
}

pub of_result :
    {M : Type 0} → (r v w : ℕ) (m : Machine M) → v ≡ w → Agrees (put_result r v m) (put r w m)
of_result r v w m h = record {
  registers_agree = λ x. ap (λ v. if x == r then v else m.registers x) h;
  pseudo_agree = λ x. refl;
  memory_agrees = refl;
  flags_agree = inl refl;
}

pub puts : {M : Type 0} → (r v w : ℕ) (m : Machine M) → v ≡ w → Agrees (put r v m) (put r w m)
puts r v w m h = record {
  registers_agree = λ x. ap (λ v. if x == r then v else m.registers x) h;
  pseudo_agree = λ x. refl;
  memory_agrees = refl;
  flags_agree = inr refl;
}

module _ {M : Type 0} (t : Target M) where
  -- The rewrite gives an instruction, which runs to a related machine.
  abbrev pub RunsAs : (Machine M → Machine M → Type 0) → Rewritten → Machine M → Machine M → Type 0
  RunsAs R none m n = ⊥
  RunsAs R (some (j, b)) m n = (k : Machine M) × (run t j m ≡ some k) × R n k

  pub of_some :
      (R : Machine M → Machine M → Type 0) (x : Rewritten) (m : Machine M) {k n : Machine M}
      → some k ≡ some n
      → RunsAs R x m k
      → RunsAs R x m n
  of_some R x m {k} {n} h = subst (λ n. RunsAs R x m n) (some-injective k n h)

  -- A rewrite under a test of a number.
  pub under :
      (R : Machine M → Machine M → Type 0) (v c : ℕ) (x y : Rewritten) (m n : Machine M)
      → (v ≡ c → RunsAs R x m n)
      → RunsAs R y m n
      → RunsAs R (if v == c then x else y) m n
  under R v c x y m n h k = elim (Bool-cases (v == c)) [
    | inl e ↦ rw e (h ((==_iff v c).0 e))
    | inr e ↦ rw e k
  ]
