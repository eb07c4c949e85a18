-- ===== src/Ltac/Pairs/Moves.antt =====
-- src/ltac/PeepholeOptimizer.cpp: two MOV of registers, and a MOV and an ADD, run as what is left of
-- them.
use mathlib.Core.Bool.{not}
use eddic.Prelude.{
  both, ◌||◌, ℕ, ◌≡◌, refl, sym, ap, ◌∙◌, arith, Bool, true, false, ◌&&◌, Option, none, some, ◌==◌,
  inl, inr, Bool-cases, ==_iff, ◌>>=◌, >>=-eq-some,
}
use eddic.Mtac.Quadruple.{Size, default}
use eddic.Ltac.Instruction.{Operator, Argument, Instruction, register, address, nop_of}
use eddic.Ltac.Pairs.{combine_movs}
use eddic.Ltac.Pairs.Sums.{run_pair, RunsAsPair, run_nop}
use eddic.Ltac.Machine.{Machine, Target, run, run_operator, move, put, read, Agrees}
use eddic.Ltac.Peephole.Relate.{instr, same}

abbrev pub is_register : Option Argument → Bool
is_register (some (register r)) = true
is_register _ = false

abbrev pub is_address : Option Argument → Bool
is_address (some (address a)) = true
is_address _ = false

module _ {M : Type 0} (t : Target M) where
  read_register :
      (m : Machine M) (size : Size) (s v : ℕ)
      → read t m size (register s) ≡ some v
      → v ≡ m.registers s
  read_register m default s v h = cc
  read_register m _ s v h = cc

  pub move_register :
      (i : Instruction) (r s : ℕ) (m n : Machine M)
      → run t (instr i Operator.mov (some (register r)) (some (register s))) m ≡ some n
      → n ≡ put r (m.registers s) m
  unfolding run run_operator move
  move_register i r s m n h =
      let (v, e, k) = >>=-eq-some (read t m i.size (register s)) (λ v. some (put r v m)) h in
      let f : put r v m ≡ n = cc in sym f ∙ ap (λ v. put r v m) (read_register m i.size s v e)

  crossed :
      (r s : ℕ) (m : Machine M)
      → Agrees
          (put s ((put r (m.registers s) m).registers r) (put r (m.registers s) m))
          (put r (m.registers s) m)
  crossed r s m = record {
    registers_agree = λ x. elim (Bool-cases (x == s)) [
      | inl here ↦ let e = ap m.registers ((==_iff x s).0 here) in ground (arith, here, e)
      | inr there ↦ ground (arith, there)
    ];
    pseudo_agree = λ x. refl;
    memory_agrees = refl;
    flags_agree = inr refl;
  }

  -- A MOV with no first or no second argument does not run.
  pub move_first :
      (i : Instruction) (b : Option Argument) (m k : Machine M)
      → run t (instr i Operator.mov none b) m ≡ some k
      → ⊥
  unfolding run run_operator move
  move_first i b m k h = cc

  pub move_second :
      (i : Instruction) (a : Argument) (m k : Machine M)
      → run t (instr i Operator.mov (some a) none) m ≡ some k
      → ⊥
  unfolding run run_operator move
  move_second i (register r) m k h = cc
  move_second i _ m k h = cc

  crossed_runs :
      (i1 i2 : Instruction) (r s u v : ℕ) (m k : Machine M)
      → run_pair t
          (instr i1 Operator.mov (some (register r)) (some (register s)))
          (instr i2 Operator.mov (some (register u)) (some (register v)))
          m
        ≡ some k
      → r ≡ v
      → s ≡ u
      → RunsAsPair t
          (some (
            instr i1 Operator.mov (some (register r)) (some (register s)),
            nop_of (instr i2 Operator.mov (some (register u)) (some (register v))),
            true,
          ))
          m
          k
  crossed_runs i1 i2 r s u v m k h e f =
      let (n, first, second) =
        >>=-eq-some (run t (instr i1 Operator.mov (some (register r)) (some (register s))) m) _ h in
      let a = move_register i1 r s m n first in
      let b = move_register i2 u v n k second in
      let c : k ≡ put s ((put r (m.registers s) m).registers r) (put r (m.registers s) m) =
        b
        ∙ ap (λ x. put x (n.registers v) n) (sym f)
        ∙ ap (λ x. put s (n.registers x) n) (sym e)
        ∙ ap (λ x. put s (x.registers r) x) a in
      (
        n,
        rw (first, ◌>>=◌)
            (run_nop t (instr i2 Operator.mov (some (register u)) (some (register v))) n),
        rw (c, a) (crossed r s m),
      )

  -- The same, with the machine between the two.
  pairs :
      (i1 i2 : Instruction) (a1 a2 b1 b2 : Option Argument) (m n k : Machine M)
      → is_address a1 ≡ false
      → (not (is_address a2) || is_register b1) ≡ true
      → run t (instr i1 Operator.mov a1 a2) m ≡ some n
      → run t (instr i2 Operator.mov b1 b2) n ≡ some k
      → run_pair t (instr i1 Operator.mov a1 a2) (instr i2 Operator.mov b1 b2) m ≡ some k
      → RunsAsPair t
          (combine_movs (instr i1 Operator.mov a1 a2) (instr i2 Operator.mov b1 b2) a1 a2 b1 b2)
          m
          k
  unfolding combine_movs
  pairs i1 i2 none a2 b1 b2 m n k ha hb e f h = absurd (move_first i1 a2 m n e)
  pairs i1 i2 (some a1) none b1 b2 m n k ha hb e f h = absurd (move_second i1 a1 m n e)
  pairs i1 i2 (some a1) (some a2) none b2 m n k ha hb e f h = absurd (move_first i2 b2 n k f)
  pairs i1 i2 (some a1) (some a2) (some b1) none m n k ha hb e f h =
      absurd (move_second i2 b1 n k f)
  pairs i1 i2 (some (register r)) (some (register s)) (some (register u)) (some (register v)) m n k
        ha hb e f h =
      elim (Bool-cases (r == v && s == u)) [
        | inl cross ↦
            let (x, y) = both (r == v) (s == u) cross in
            rw cross (crossed_runs i1 i2 r s u v m k h ((==_iff r v).0 x) ((==_iff s u).0 y))
        | inr apart ↦ rw apart (k, h, same k)
      ]
  pairs i1 i2 (some (register r)) (some (address a)) (some (register u)) (some (register v)) m n k
        ha hb e f h =
      (k, h, same k)
  pairs i1 i2 (some a1) (some (address a)) (some (register u)) (some b2) m n k ha hb e f h =
      (k, h, same k)
  pairs i1 i2 (some a1) (some (address a)) b1 b2 m n k ha hb e f h = cc
  pairs i1 i2 (some (address a)) a2 b1 b2 m n k ha hb e f h = cc
  pairs i1 i2 (some (register r)) (some a2) (some b1) (some (register v)) m n k ha hb e f h =
      (k, h, same k)
  pairs i1 i2 (some a1) (some (register s)) (some (register u)) (some b2) m n k ha hb e f h =
      (k, h, same k)
  pairs i1 i2 a1 a2 b1 b2 m n k ha hb e f h = (k, h, same k)

  pub mov_pair_runs :
      (i1 i2 : Instruction) (a1 a2 b1 b2 : Option Argument) (m k : Machine M)
      → is_address a1 ≡ false
      → (not (is_address a2) || is_register b1) ≡ true
      → run_pair t (instr i1 Operator.mov a1 a2) (instr i2 Operator.mov b1 b2) m ≡ some k
      → RunsAsPair t
          (combine_movs (instr i1 Operator.mov a1 a2) (instr i2 Operator.mov b1 b2) a1 a2 b1 b2)
          m
          k
  mov_pair_runs i1 i2 a1 a2 b1 b2 m k ha hb h =
      let (n, first, second) = >>=-eq-some (run t (instr i1 Operator.mov a1 a2) m) _ h in
      pairs i1 i2 a1 a2 b1 b2 m n k ha hb first second h
