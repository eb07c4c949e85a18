-- ===== src/Ltac/Constants/Writes.antt =====
-- What an instruction writes.
use eddic.Prelude.{ℕ, ◌≡◌, refl, sym, ap, ◌∙◌, Bool, false, Option, none, some, ◌==◌, >>=-eq-some}
use mathlib.Core.Option.{some-injective}
use eddic.Mtac.Quadruple.{default}
use eddic.Ltac.Instruction.{Operator, Argument, Instruction, register, address, int}
use eddic.Ltac.Machine.{
  Machine, Target, run, run_operator, binary, move, multiply3, compare, or_op, load_address,
  increment, effective, read, put, put_result,
}

-- whether an argument is the register
abbrev pub names : Option Argument → ℕ → Bool
names (some (register s)) r = r == s
names a r = false

module _ {M : Type 0} (t : Target M) where
  -- Where the target says what the instruction does, it writes no register but its first argument.
  abbrev pub IsNarrow : Instruction → Type 0
  IsNarrow i =
      (m n : Machine M) (r : ℕ)
      → t.other i m ≡ some n
      → names i.arg1 r ≡ false
      → n.registers r ≡ m.registers r

  abbrev pub Untouched : Option Argument → Machine M → Machine M → Type 0
  Untouched a m n = (r : ℕ) → names a r ≡ false → n.registers r ≡ m.registers r

  puts_value : (r v : ℕ) (m : Machine M) → Untouched (some (register r)) m (put r v m)
  puts_value r v m x h = rw h refl

  puts_result : (r v : ℕ) (m : Machine M) → Untouched (some (register r)) m (put_result r v m)
  puts_result r v m x h = rw h refl

  of_some :
      (a : Option Argument) (m : Machine M) {k n : Machine M}
      → some k ≡ some n
      → Untouched a m k
      → Untouched a m n
  of_some a m {k} {n} h u r e = sym (ap (λ n. n.registers r) (some-injective k n h)) ∙ u r e

  binary_lem :
      (f : ℕ → ℕ → ℕ) (i : Instruction) (m n : Machine M) (a b : Option Argument)
      → (t.other i m ≡ some n → Untouched a m n)
      → binary t f i m a b ≡ some n
      → Untouched a m n
  unfolding binary
  binary_lem f i m n none b w h = cc
  binary_lem f i m n (some (register r)) none w h = cc
  binary_lem f i m n (some (register r)) (some b) w h =
      let (v, _, e) = >>=-eq-some (read t m default b) _ h in
      of_some (some (register r)) m e (puts_result r (f (m.registers r) v) m)
  binary_lem f i m n (some a) b w h = w h

  move_lem :
      (i : Instruction) (m n : Machine M) (a b : Option Argument)
      → (t.other i m ≡ some n → Untouched a m n)
      → move t i m a b ≡ some n
      → Untouched a m n
  unfolding move
  move_lem i m n none b w h = cc
  move_lem i m n (some a) none w h = cc
  move_lem i m n (some (register r)) (some b) w h =
      let (v, _, e) = >>=-eq-some (read t m i.size b) _ h in
      of_some (some (register r)) m e (puts_value r v m)
  move_lem i m n (some a) (some b) w h = w h

  multiply_lem :
      (i : Instruction) (m n : Machine M) (a b : Option Argument)
      → (t.other i m ≡ some n → Untouched a m n)
      → multiply3 t i m a b ≡ some n
      → Untouched a m n
  unfolding multiply3
  multiply_lem i m n none b w h = cc
  multiply_lem i m n (some (register r)) none w h = cc
  multiply_lem i m n (some (register r)) (some (int v)) w h = cc
  multiply_lem i m n (some (register r)) (some b) w h = w h
  multiply_lem i m n (some a) b w h = w h

  compare_lem :
      (i : Instruction) (m n : Machine M) (a b : Option Argument)
      → (t.other i m ≡ some n → Untouched a m n)
      → compare t i m a b ≡ some n
      → Untouched a m n
  unfolding compare
  compare_lem i m n none b w h = cc
  compare_lem i m n (some (register r)) none w h = cc
  compare_lem i m n (some (register r)) (some b) w h =
      let (v, _, e) = >>=-eq-some (read t m default b) _ h in
      of_some (some (register r)) m e (λ x k. refl)
  compare_lem i m n (some a) b w h = w h

  or_lem :
      (i : Instruction) (m n : Machine M) (a b : Option Argument)
      → (t.other i m ≡ some n → Untouched a m n)
      → or_op t i m a b ≡ some n
      → Untouched a m n
  unfolding or_op
  or_lem i m n (some (register r)) (some (register s)) w h =
      of_some (some (register r)) m h (puts_value r _ m)
  or_lem i m n a b w h = w h

  address_lem :
      (i : Instruction) (m n : Machine M) (a b : Option Argument)
      → load_address t i m a b ≡ some n
      → Untouched a m n
  unfolding load_address
  address_lem i m n (some (register r)) (some (address b)) h =
      let (v, _, e) = >>=-eq-some (effective t m b) _ h in
      of_some (some (register r)) m e (puts_value r v m)
  address_lem i m n a b h = cc

  increment_lem :
      (k : ℕ) (i : Instruction) (m n : Machine M) (a : Option Argument)
      → (t.other i m ≡ some n → Untouched a m n)
      → increment t k i m a ≡ some n
      → Untouched a m n
  increment_lem k i m n (some (register r)) w h =
      of_some (some (register r)) m h (puts_result r _ m)
  increment_lem k i m n a w h = w h

  operator_lem :
      (o : Operator) (i : Instruction) (m n : Machine M)
      → (t.other i m ≡ some n → Untouched i.arg1 m n)
      → run_operator t o i m ≡ some n
      → Untouched i.arg1 m n
  unfolding run_operator
  operator_lem Operator.nop i m n w h = of_some i.arg1 m h (λ r e. refl)
  operator_lem Operator.add i m n w h = binary_lem _ i m n i.arg1 i.arg2 w h
  operator_lem Operator.sub i m n w h = binary_lem _ i m n i.arg1 i.arg2 w h
  operator_lem Operator.mul2 i m n w h = binary_lem _ i m n i.arg1 i.arg2 w h
  operator_lem Operator.xor i m n w h = binary_lem _ i m n i.arg1 i.arg2 w h
  operator_lem Operator.shift_left i m n w h = binary_lem _ i m n i.arg1 i.arg2 w h
  operator_lem Operator.mul3 i m n w h = multiply_lem i m n i.arg1 i.arg2 w h
  operator_lem Operator.inc i m n w h = increment_lem _ i m n i.arg1 w h
  operator_lem Operator.dec i m n w h = increment_lem _ i m n i.arg1 w h
  operator_lem Operator.mov i m n w h = move_lem i m n i.arg1 i.arg2 w h
  operator_lem Operator.cmp_int i m n w h = compare_lem i m n i.arg1 i.arg2 w h
  operator_lem Operator.or i m n w h = or_lem i m n i.arg1 i.arg2 w h
  operator_lem Operator.lea i m n w h = address_lem i m n i.arg1 i.arg2 h
  operator_lem o i m n w h = w h

  pub run-Untouched :
      (i : Instruction) (m n : Machine M) → IsNarrow i → run t i m ≡ some n → Untouched i.arg1 m n
  unfolding run
  run-Untouched i m n w h = operator_lem i.op i m n (λ k r. w m n r k) h
