-- ===== src/Ltac/Pairs/Forward.antt =====
-- src/ltac/PeepholeOptimizer.cpp: a MOV to a register and a MOV from it run as the two MOV from the
-- one source.
use mathlib.Core.Bool.{not}
use mathlib.Core.Path.{subst}
use eddic.Prelude.{
  both, not_true, ℕ, ◌≡◌, refl, sym, ap, ◌∙◌, arith, Bool, true, false, ◌&&◌, Option, none, some,
  ◌==◌, inl, inr, Bool-cases, ==_iff, if◌then◌else◌, ◌>>=◌, >>=-eq-some,
}
use eddic.Mtac.Quadruple.{Size, default}
use eddic.Platform.{Platform, intel_x86, intel_x86_64, get_platform_descriptor}
use eddic.Ltac.Instruction.{
  Operator, Argument, Instruction, AddressRegister, base_hard, register, address,
}
use eddic.Ltac.Pairs.Second.{is_same, possible, is_param, is_special, forward_mov, copy_source}
use eddic.Ltac.Pairs.{kept_pair}
use eddic.Ltac.Pairs.Sums.{run_pair, RunsAsPair}
use eddic.Ltac.Pairs.Moves.{move_first, move_second}
use eddic.Ltac.Machine.{
  Machine, Target, run, run_operator, move, put, read, effective, address_value,
}
use eddic.Ltac.Peephole.Relate.{instr, same}

special_total :
    (p : Platform) (reg : ℕ) → (b : Bool) × (is_special (get_platform_descriptor p) reg ≡ some b)
unfolding is_special is_param
special_total intel_x86 reg = elim (Bool-cases (reg == 2)) [
  | inl hit ↦ rw hit (_, refl)
  | inr miss ↦ rw miss (_, refl)
]
special_total intel_x86_64 reg = elim (Bool-cases (reg == 12)) [
  | inl hit ↦ rw hit (_, refl)
  | inr miss ↦ elim (Bool-cases (reg == 13)) [
    | inl hit ↦ rw (miss, hit) (_, refl)
    | inr neither ↦ rw (miss, neither) (_, refl)
  ]
]

-- After register allocation, an address has no pseudo register.
abbrev is_hard_register : Option AddressRegister → Bool
is_hard_register none = true
is_hard_register (some (base_hard r)) = true
is_hard_register (some _) = false

abbrev pub is_hard : Option Argument → Bool
is_hard (some (address a)) = is_hard_register a.base_register && is_hard_register a.scaled_register
is_hard _ = true

is_same-total :
    (o : Option AddressRegister) (r : ℕ)
    → is_hard_register o ≡ true
    → (b : Bool) × (is_same o r ≡ some b)
is_same-total none r h = (_, refl)
is_same-total (some (base_hard s)) r h = (_, refl)
is_same-total (some _) r h = cc

possible-total :
    (size : Size) (a : Argument) (r : ℕ)
    → is_hard (some a) ≡ true
    → (b : Bool) × (possible size (some a) r ≡ some b)
unfolding possible
possible-total default (address a) r h =
    let (x, y) = both (is_hard_register a.base_register) (is_hard_register a.scaled_register) h in
    let (b, e) = is_same-total a.base_register r x in
    let (c, f) = is_same-total a.scaled_register r y in (not b && not c, rw (e, f) refl)
possible-total default a r h = (_, refl)
possible-total _ a r h = (_, refl)

module _ {M : Type 0} (t : Target M) where
  address_value-put :
      (m : Machine M) (r v : ℕ) (o : Option AddressRegister)
      → is_same o r ≡ some false
      → address_value (put r v m) o ≡ address_value m o
  address_value-put m r v none h = refl
  address_value-put m r v (some (base_hard s)) h = let e : (s == r) ≡ false = cc in rw e refl
  address_value-put m r v (some o) h = cc

  read-put :
      (m : Machine M) (r v : ℕ) (a : Argument)
      → possible default (some a) r ≡ some true
      → read t m default a ≡ some v
      → read t (put r v m) default a ≡ some v
  unfolding possible effective
  read-put m r v (register s) p h = elim (Bool-cases (s == r)) [
    | inl here ↦ rw here refl
    | inr there ↦ rw there h
  ]
  read-put m r v (address a) p h =
      let (base, e, rest) = >>=-eq-some (is_same a.base_register r) _ p in
      let (scaled, f, last) = >>=-eq-some (is_same a.scaled_register r) _ rest in
      let g : (not base && not scaled) ≡ true = cc in
      let (x, y) = both (not base) (not scaled) g in
      rw
        (
          address_value-put m r v a.base_register (e ∙ ap some (not_true base x)),
          address_value-put m r v a.scaled_register (f ∙ ap some (not_true scaled y)),
        )
        h
  read-put m r v a p h = h

  -- The first MOV is of the default size.
  first_value :
      (m n : Machine M) (r : ℕ) (size : Size) (a : Argument)
      → possible size (some a) r ≡ some true
      → (read t m size a >>= λ v. some (put r v m)) ≡ some n
      → (v : ℕ) × (read t m default a ≡ some v)
        × (put r v m ≡ n)
        × (possible default (some a) r ≡ some true)
  unfolding possible
  first_value m n r default a p h =
      let (v, e, f) = >>=-eq-some (read t m default a) (λ v. some (put r v m)) h in (v, e, cc, p)
  first_value m n r _ a p h = cc

  -- The second one too, since it reads a register.
  second_value :
      (n k : Machine M) (s r v : ℕ) (size : Size) (a : Argument)
      → read t n default a ≡ some v
      → n.registers r ≡ v
      → (read t n size (register r) >>= λ w. some (put s w n)) ≡ some k
      → (read t n size a >>= λ w. some (put s w n)) ≡ some k
  second_value n k s r v default a e f h = rw e (rw (← f) h)
  second_value n k s r v _ a e f h = cc

  put_at : (r v : ℕ) (m : Machine M) → (put r v m).registers r ≡ v
  put_at r v m = ground arith

  forward_runs :
      (i1 i2 : Instruction) (r s : ℕ) (a : Argument) (m n k : Machine M)
      → possible i1.size (some a) r ≡ some true
      → run t (instr i1 Operator.mov (some (register r)) (some a)) m ≡ some n
      → run t (instr i2 Operator.mov (some (register s)) (some (register r))) n ≡ some k
      → run t (instr i2 Operator.mov (some (register s)) (some a)) n ≡ some k
  unfolding run run_operator move
  forward_runs i1 i2 r s a m n k p e f =
      let (v, value, made, q) = first_value m n r i1.size a p e in
      second_value n k s r v i2.size a
        (ap (λ x. read t x default a) (sym made) ∙ read-put m r v a q value)
        (ap (λ (x : Machine M). x.registers r) (sym made) ∙ put_at r v m) f

  -- The second instruction is left, or reads the source of the first one.
  copied :
      (i1 i2 : Instruction) (a2 : Option Argument) (special : Option Bool) (b : Bool)
      (m k : Machine M)
      → special ≡ some b
      → run_pair t i1 i2 m ≡ some k
      → run_pair t i1 (record i2 { arg2 = a2 }) m ≡ some k
      → RunsAsPair t (special >>= copy_source i1 i2 a2) m k
  copied i1 i2 a2 none b m k e h g = cc
  copied i1 i2 a2 (some true) b m k e h g = (k, g, same k)
  copied i1 i2 a2 (some false) b m k e h g = (k, h, same k)

  tested :
      (i1 i2 : Instruction) (a2 : Option Argument) (here : Bool) (ok special : Option Bool)
      (b c : Bool) (m k : Machine M)
      → ok ≡ some b
      → special ≡ some c
      → run_pair t i1 i2 m ≡ some k
      → (here ≡ true → ok ≡ some true → run_pair t i1 (record i2 { arg2 = a2 }) m ≡ some k)
      → RunsAsPair t
          (ok >>= λ x. if here && x then special >>= copy_source i1 i2 a2 else kept_pair i1 i2)
          m
          k
  tested i1 i2 a2 here none special b c m k e f h g = cc
  tested i1 i2 a2 true (some true) special b c m k e f h g =
      copied i1 i2 a2 special c m k f h (g refl refl)
  tested i1 i2 a2 true (some false) special b c m k e f h g = (k, h, same k)
  tested i1 i2 a2 false (some x) special b c m k e f h g = (k, h, same k)

  pub forward_mov_runs :
      (p : Platform) (i1 i2 : Instruction) (a1 a2 b1 b2 : Option Argument) (m n k : Machine M)
      → is_hard a2 ≡ true
      → run t (instr i1 Operator.mov a1 a2) m ≡ some n
      → run t (instr i2 Operator.mov b1 b2) n ≡ some k
      → run_pair t (instr i1 Operator.mov a1 a2) (instr i2 Operator.mov b1 b2) m ≡ some k
      → RunsAsPair t
          (forward_mov
            (get_platform_descriptor p)
            (instr i1 Operator.mov a1 a2)
            (instr i2 Operator.mov b1 b2)
            a1
            a2
            b1
            b2)
          m
          k
  unfolding forward_mov
  forward_mov_runs p i1 i2 none a2 b1 b2 m n k c e f h = absurd (move_first t i1 a2 m n e)
  forward_mov_runs p i1 i2 (some a1) none b1 b2 m n k c e f h = absurd (move_second t i1 a1 m n e)
  forward_mov_runs p i1 i2 (some a1) (some a) none b2 m n k c e f h =
      absurd (move_first t i2 b2 n k f)
  forward_mov_runs p i1 i2 (some a1) (some a) (some b1) none m n k c e f h =
      absurd (move_second t i2 b1 n k f)
  forward_mov_runs p i1 i2 (some (register r)) (some a) (some (register s)) (some (register u)) m n
        k c e f h =
      let (b, possibly) = possible-total i1.size a r c in
      let (d, total) = special_total p s in
      tested (instr i1 Operator.mov (some (register r)) (some a))
        (instr i2 Operator.mov (some (register s)) (some (register u))) (some a) (u == r)
        (possible i1.size (some a) r) (is_special (get_platform_descriptor p) s) b d m k possibly
        total h
        (λ one ok.
          rw (e, ◌>>=◌)
            (forward_runs i1 i2 r s a m n k ok e (
              subst
                (λ x.
                  run t (instr i2 Operator.mov (some (register s)) (some (register x))) n ≡ some k)
                ((==_iff u r).0 one) f)))
  forward_mov_runs p i1 i2 a1 a2 b1 b2 m n k c e f h = (k, h, same k)
