-- ===== src/Ltac/Copies/Sound.antt =====
-- Copy propagation keeps what a block does, where no instruction writes a register that it does not
-- name first, but for the two that DIV writes.
use eddic.Prelude.{
  ℕ, ◌≡◌, refl, sym, ap, ◌∙◌, arith, Bool, true, false, Option, none, some, List, [], ◌∷◌, ◌==◌,
  ◌>>=◌, >>=-eq-some, Option-cases, inl, inr, if◌then◌else◌,
}
use mathlib.Core.Path.{subst}
use mathlib.Core.Option.{some-injective}
use eddic.Platform.{PlatformDescriptor}
use eddic.Mtac.Quadruple.{Size, default}
use eddic.Ltac.Instruction.{Operator, Argument, Instruction, register}
use eddic.Ltac.Copies.{
  Copies, remove_destination, remove_implicit, insert, collect_copy, collect, optimize_copy,
  propagate, propagate_block, copy_propagation,
}
use eddic.Ltac.Machine.{Machine, Target, run, run_operator, move, read, put}
use eddic.Ltac.Peephole.Relate.{instr}
use eddic.Ltac.Constants.Holds.{here}
use eddic.Ltac.Constants.Sound.{run_block}
use eddic.Ltac.Copies.Agreement.{
  insert-some, StoresRegister, Agree, AreWrites, destination-Agree, step-Agree, insert-Agree,
}

either : (r s v : ℕ) → v ≡ (if s == r then v else v)
either r s v = ground arith

abbrev is_register : Argument → Bool
is_register (register s) = true
is_register a = false

other_source :
    (size : Size) (i : Instruction) (b : Argument) (c : Copies) (o : Bool)
    → is_register b ≡ false
    → optimize_copy i size (some b) c o ≡ some (i, o)
unfolding optimize_copy
other_source default i (register s) c o h = cc
other_source default i b c o h = refl
other_source size i b c o h = refl

module _ {M : Type 0} (t : Target M) (descriptor : PlatformDescriptor) where
  -- The source of a MOV to a register keeps its value, or is the destination.
  source_agree :
      (size : Size) (r s : ℕ) (m n : Machine M)
      → (read t m size (register s) >>= λ v. some (put r v m)) ≡ some n
      → n.registers r ≡ n.registers s
  source_agree default r s m n h =
      let after = some-injective (put r (m.registers s) m) n h in
      subst (λ n. n.registers r ≡ n.registers s) after
        (here r (m.registers s) (m.registers r) ∙ either r s (m.registers s))
  source_agree size r s m n h = cc

  read_agree :
      (size : Size) (s y : ℕ) (m : Machine M)
      → m.registers s ≡ m.registers y
      → read t m size (register y) ≡ read t m size (register s)
  read_agree default s y m h = ap some (sym h)
  read_agree size s y m h = refl

  replaced :
      (i : Instruction) (a : Argument) (s y : ℕ) (m n : Machine M)
      → StoresRegister t descriptor
      → m.registers s ≡ m.registers y
      → run t (instr i Operator.mov (some a) (some (register s))) m ≡ some n
      → run t (instr i Operator.mov (some a) (some (register y))) m ≡ some n
  unfolding run run_operator move
  replaced i (register r) s y m n w e k =
      ap (λ x. x >>= λ v. some (put r v m)) (read_agree i.size s y m e) ∙ k
  replaced i a s y m n w e k =
      w (instr i Operator.mov (some a) (some (register s))) s y m refl e ∙ k

  copied :
      (size : Size) (i : Instruction) (a : Argument) (s : ℕ) (c : Copies) (o : Bool)
      (m n : Machine M)
      → StoresRegister t descriptor
      → ((y : ℕ) → c s ≡ some y → m.registers s ≡ m.registers y)
      → run t (instr i Operator.mov (some a) (some (register s))) m ≡ some n
      → (p : Instruction × Bool) × (optimize_copy
            (instr i Operator.mov (some a) (some (register s)))
            size
            (some (register s))
            c
            o
          ≡ some p)
        × (run t p.0 m ≡ some n)
  unfolding optimize_copy
  copied default i a s c o m n w h k = elim (Option-cases (c s)) [
    | inl e ↦ rw e (_, refl, k)
    | inr (y, e) ↦ rw e (_, refl, replaced i a s y m n w (h y e) k)
  ]
  copied size i a s c o m n w h k = (_, refl, k)

  Steps : Operator → Instruction → Copies → Bool → Machine M → Machine M → Type 0
  Steps o i c optimized m n =
      (known : Copies) × (collect o i.arg1 i.arg2
          (remove_implicit descriptor o (remove_destination i.arg1 c))
        ≡ some known)
      × Agree t descriptor known n
      × (p : Instruction × Bool) × (propagate o i known optimized ≡ some p)
      × (run t p.0 m ≡ some n)

  mov_lem :
      (i : Instruction) (a b : Option Argument) (c : Copies) (o : Bool) (m n : Machine M)
      → StoresRegister t descriptor
      → Agree t descriptor c m
      → Agree t descriptor (remove_destination a c) n
      → run t (instr i Operator.mov a b) m ≡ some n
      → Steps Operator.mov (instr i Operator.mov a b) c o m n
  unfolding run run_operator move collect collect_copy propagate remove_implicit Steps
  mov_lem i none b c o m n w hm hn k = cc
  mov_lem i (some a) none c o m n w hm hn k = cc
  mov_lem i (some (register r)) (some (register s)) c o m n w hm hn k =
      let base = remove_destination (some (register r)) c in
      let (p, e, runs) =
        copied i.size i (register r) s (insert r s base) o m n w
          (λ y known. elim (insert-some r s s y base known) [
            | inl (_, same) ↦ ap m.registers same
            | inr (_, rest) ↦ destination-Agree t descriptor (some (register r)) c m hm s y rest
          ])
          k in
      (
        insert r s base,
        refl,
        insert-Agree t descriptor r s base n (source_agree i.size r s m n k) hn,
        p,
        e,
        runs,
      )
  mov_lem i (some a) (some (register s)) c o m n w hm hn k =
      let base = remove_destination (some a) c in
      let (p, e, runs) =
        copied i.size i a s base o m n w
          (λ y known. destination-Agree t descriptor (some a) c m hm s y known) k in
      (base, refl, hn, p, e, runs)
  mov_lem i (some (register r)) (some b) c o m n w hm hn k =
      (_, refl, hn, _, other_source i.size _ b _ o refl, k)
  mov_lem i (some a) (some b) c o m n w hm hn k =
      (_, refl, hn, _, other_source i.size _ b _ o refl, k)

  operator_lem :
      (op : Operator) (i : Instruction) (a b : Option Argument) (c : Copies) (o : Bool)
      (m n : Machine M)
      → StoresRegister t descriptor
      → Agree t descriptor c m
      → Agree t descriptor (remove_implicit descriptor op (remove_destination a c)) n
      → run t (instr i op a b) m ≡ some n
      → Steps op (instr i op a b) c o m n
  unfolding collect propagate remove_implicit Steps
  operator_lem Operator.mov i a b c o m n w hm hn k = mov_lem i a b c o m n w hm hn k
  operator_lem op i a b c o m n w hm hn k = (_, refl, hn, _, refl, k)

  block_lem :
      (is : List Instruction) (c : Copies) (o : Bool) (m n : Machine M)
      → StoresRegister t descriptor
      → AreWrites t descriptor is
      → Agree t descriptor c m
      → run_block t is m ≡ some n
      → (p : List Instruction × Bool) × (propagate_block descriptor is c o ≡ some p)
        × (run_block t p.0 m ≡ some n)
  unfolding run_block propagate_block Steps
  block_lem [] c o m n w writes h k = (_, refl, k)
  block_lem (i ∷ rest) c o m n w writes h k =
      let (middle, first, others) = >>=-eq-some (run t i m) (run_block t rest) k in
      let (known, collected, agree, p, replaced_is, runs) =
        operator_lem i.op i i.arg1 i.arg2 c o m middle w h
          (step-Agree t descriptor i.op i i.arg1 i.arg2 c m middle writes.0 h first) first in
      let (q, results, run_rest) = block_lem rest known p.1 middle n w writes.1 agree others in
      rw (collected, replaced_is, results) (_, refl, rw runs run_rest)

  -- When a block runs whose instructions write no register but the one that is their first argument,
  -- and a DIV the two of the platform, on a target where a MOV stores the value of its source,
  -- copy_propagation does not fail on it, and the block that it leaves runs to the same machine.
  pub run_block-copy_propagation :
      (is : List Instruction) (optimized : Bool) (m n : Machine M)
      → StoresRegister t descriptor
      → AreWrites t descriptor is
      → run_block t is m ≡ some n
      → (p : List Instruction × Bool) × (copy_propagation descriptor is optimized ≡ some p)
        × (run_block t p.0 m ≡ some n)
  unfolding copy_propagation
  run_block-copy_propagation is optimized m n w writes k =
      block_lem is (λ r. none) optimized m n w writes (λ r s e. cc) k
