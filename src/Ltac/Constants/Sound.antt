-- ===== src/Ltac/Constants/Sound.antt =====
-- Constant propagation keeps what a block does, where no instruction writes a register that it does not
-- name first.
use eddic.Prelude.{
  ℕ, ◌≡◌, refl, sym, ap, ◌∙◌, Bool, Option, none, some, List, [], ◌∷◌, ◌==◌, ◌>>=◌, >>=-eq-some,
  Bool-cases, ==_iff, inl, inr,
}
use mathlib.Core.Option.{some-injective}
use Prim.Native.Nat.{bit_xor}
use eddic.Word.Digits.{bit_xor_self}
use eddic.Mtac.Quadruple.{Size, default}
use eddic.Ltac.Instruction.{Operator, Argument, Instruction, register, int}
use eddic.Ltac.Constants.{
  Constants, insert, erase_constant, collect, collect_xor, collect_mov, optimize_source, propagate,
  propagate_block, constant_propagation,
}
use eddic.Ltac.Machine.{Machine, Target, run, run_operator, binary, move, read, put, put_result}
use eddic.Prelude.{Option-cases}
use eddic.Ltac.Peephole.Relate.{instr}
use eddic.Ltac.Constants.Writes.{IsNarrow, run-Untouched}
use eddic.Ltac.Constants.Holds.{Holds, erase_lem, insert_lem, here}

module _ {M : Type 0} (t : Target M) where
  unfoldable pub run_block : List Instruction → Machine M → Option (Machine M)
  run_block [] m = some m
  run_block (i ∷ rest) m = run t i m >>= run_block rest

  abbrev pub AreNarrow : List Instruction → Type 0
  AreNarrow [] = Unit
  AreNarrow (i ∷ rest) = IsNarrow t i × AreNarrow rest

  -- Of a register that a MOV stores the value alone counts.
  abbrev pub StoresValue : Type 0
  StoresValue =
      (i : Instruction) (s : ℕ) (m : Machine M)
      → i.op ≡ Operator.mov
      → t.other (record i { arg2 = some (int (m.registers s)) }) m
        ≡ t.other (record i { arg2 = some (register s) }) m

  -- What a step does: it collects constants that hold after it, and its instruction runs as before.
  abbrev Steps : Operator → Instruction → Constants → Bool → Machine M → Machine M → Type 0
  Steps o i c optimized m n =
      (known : Constants) × (collect o i.arg1 i.arg2 c ≡ some known)
      × Holds t known n
      × (p : Instruction × Bool) × (propagate o i known optimized ≡ some p)
      × (run t p.0 m ≡ some n)

  cleared :
      (r s : ℕ) (m n : Machine M)
      → r ≡ s
      → some (put_result r (bit_xor (m.registers r) (m.registers s)) m) ≡ some n
      → n.registers r ≡ 0
  cleared r s m n e h =
      sym (ap (λ n. n.registers r) (some-injective _ n h))
      ∙ here r _ (m.registers r)
      ∙ ap (λ s. bit_xor (m.registers r) (m.registers s)) (sym e)
      ∙ bit_xor_self (m.registers r)

  xor_lem :
      (i : Instruction) (a b : Option Argument) (c : Constants) (m n : Machine M)
      → Holds t c n
      → run t (instr i Operator.xor a b) m ≡ some n
      → (known : Constants) × (collect_xor a b c ≡ some known) × Holds t known n
  unfolding run run_operator binary collect_xor
  xor_lem i none b c m n h k = cc
  xor_lem i (some (register r)) none c m n h k = cc
  xor_lem i (some (register r)) (some (register s)) c m n h k = elim (Bool-cases (r == s)) [
    | inl same ↦
        rw same
          (insert r 0 c, refl, insert_lem t r 0 c n (cleared r s m n ((==_iff r s).0 same) k) h)
    | inr other ↦ rw other (c, refl, h)
  ]
  xor_lem i (some (register r)) (some b) c m n h k = (c, refl, h)
  xor_lem i (some a) b c m n h k = (c, refl, h)

  -- the size of a MOV from a literal or a register is the default
  literal_lem :
      (size : Size) (r v : ℕ) (m n : Machine M)
      → (read t m size (int v) >>= λ v. some (put r v m)) ≡ some n
      → n.registers r ≡ v
  literal_lem default r v m n h =
      sym (ap (λ n. n.registers r) (some-injective (put r v m) n h)) ∙ here r v (m.registers r)
  literal_lem size r v m n h = cc

  source_lem :
      (size : Size) (s v : ℕ) (m : Machine M)
      → m.registers s ≡ v
      → read t m size (int v) ≡ read t m size (register s)
  source_lem default s v m h = ap some (sym h)
  source_lem size s v m h = refl

  replaced :
      (i : Instruction) (a : Argument) (s v : ℕ) (m n : Machine M)
      → StoresValue
      → m.registers s ≡ v
      → run t (instr i Operator.mov (some a) (some (register s))) m ≡ some n
      → run t (instr i Operator.mov (some a) (some (int v))) m ≡ some n
  unfolding run run_operator move
  replaced i (register r) s v m n w e k =
      ap (λ x. x >>= λ v. some (put r v m)) (source_lem i.size s v m e) ∙ k
  replaced i a s v m n w e k =
      ap (λ v. t.other (instr i Operator.mov (some a) (some (int v))) m) (sym e)
      ∙ w (instr i Operator.mov (some a) (some (int v))) s m refl
      ∙ k

  -- a MOV from a register
  copied :
      (i : Instruction) (a : Argument) (s : ℕ) (c : Constants) (o : Bool) (m n : Machine M)
      → StoresValue
      → Holds t c m
      → run t (instr i Operator.mov (some a) (some (register s))) m ≡ some n
      → (p : Instruction × Bool) × (optimize_source
            (instr i Operator.mov (some a) (some (register s)))
            (some (register s))
            c
            o
          ≡ some p)
        × (run t p.0 m ≡ some n)
  unfolding optimize_source
  copied i a s c o m n w h k = elim (Option-cases (c s)) [
    | inl e ↦ rw e (_, refl, k)
    | inr (v, e) ↦ rw e (_, refl, replaced i a s v m n w (h s v e) k)
  ]

  mov_lem :
      (i : Instruction) (a b : Option Argument) (c : Constants) (o : Bool) (m n : Machine M)
      → StoresValue
      → Holds t c m
      → Holds t c n
      → run t (instr i Operator.mov a b) m ≡ some n
      → Steps Operator.mov (instr i Operator.mov a b) c o m n
  unfolding run run_operator move collect collect_mov propagate optimize_source
  mov_lem i none b c o m n w hm hn k = cc
  mov_lem i (some a) none c o m n w hm hn k = cc
  mov_lem i (some (register r)) (some (int v)) c o m n w hm hn k =
      (insert r v c, refl, insert_lem t r v c n (literal_lem i.size r v m n k) hn, _, refl, k)
  mov_lem i (some (register r)) (some (register s)) c o m n w hm hn k =
      let (p, e, runs) = copied i (register r) s c o m n w hm k in (c, refl, hn, p, e, runs)
  mov_lem i (some a) (some (register s)) c o m n w hm hn k =
      let (p, e, runs) = copied i a s c o m n w hm k in (c, refl, hn, p, e, runs)
  mov_lem i (some (register r)) (some b) c o m n w hm hn k = (c, refl, hn, _, refl, k)
  mov_lem i (some a) (some b) c o m n w hm hn k = (c, refl, hn, _, refl, k)

  operator_lem :
      (op : Operator) (i : Instruction) (a b : Option Argument) (c : Constants) (o : Bool)
      (m n : Machine M)
      → StoresValue
      → Holds t c m
      → Holds t c n
      → run t (instr i op a b) m ≡ some n
      → Steps op (instr i op a b) c o m n
  unfolding collect propagate
  operator_lem Operator.mov i a b c o m n w hm hn k = mov_lem i a b c o m n w hm hn k
  operator_lem Operator.xor i a b c o m n w hm hn k =
      let (known, e, h) = xor_lem i a b c m n hn k in (known, e, h, _, refl, k)
  operator_lem op i a b c o m n w hm hn k = (c, refl, hn, _, refl, k)

  block_lem :
      (is : List Instruction) (c : Constants) (o : Bool) (m n : Machine M)
      → StoresValue
      → AreNarrow is
      → Holds t c m
      → run_block is m ≡ some n
      → (p : List Instruction × Bool) × (propagate_block is c o ≡ some p)
        × (run_block p.0 m ≡ some n)
  unfolding run_block propagate_block
  block_lem [] c o m n w narrow h k = (_, refl, k)
  block_lem (i ∷ rest) c o m n w narrow h k =
      let (middle, first, others) = >>=-eq-some (run t i m) (run_block rest) k in
      let (known, collected, holds, p, replaced_is, runs) =
        operator_lem i.op i i.arg1 i.arg2 (erase_constant i.arg1 c) o m middle w
          (erase_lem t i.arg1 c m m (λ r e. refl) h)
          (erase_lem t i.arg1 c m middle (run-Untouched t i m middle narrow.0 first) h) first in
      let (q, results, run_rest) = block_lem rest known p.1 middle n w narrow.1 holds others in
      rw (collected, replaced_is, results) (_, refl, rw runs run_rest)

  -- When a block runs whose instructions write no register but the one that is their first argument,
  -- on a target where a MOV stores the value of its source, constant_propagation does not fail on it,
  -- and the block that it leaves runs to the same machine.
  pub run_block-constant_propagation :
      (is : List Instruction) (optimized : Bool) (m n : Machine M)
      → StoresValue
      → AreNarrow is
      → run_block is m ≡ some n
      → (p : List Instruction × Bool) × (constant_propagation is optimized ≡ some p)
        × (run_block p.0 m ≡ some n)
  unfolding constant_propagation
  run_block-constant_propagation is optimized m n w narrow k =
      block_lem is (λ r. none) optimized m n w narrow (λ r v e. cc) k
