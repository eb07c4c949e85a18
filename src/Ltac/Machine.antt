-- ===== src/Ltac/Machine.antt =====
-- What an instruction does, on the 32-bit target: the specification that the peephole optimiser is
-- held to. It covers the operators that the optimiser rewrites, with a register as the destination;
-- what the others do is a parameter, and so are memory and the addresses of labels.
use Prim.Native.String.{String}
use Prim.Native.Nat.{bit_xor, bit_or}
use eddic.Prelude.{
  ℕ, ◌^◌, ◌≡◌, Bool, false, Option, none, some, ◌==◌, if◌then◌else◌, ◌>>=◌, ◌⊎◌, ltb,
}
use eddic.Word
use eddic.Word.{IsWord}
use eddic.Mtac.Quadruple.{Size, default}
use eddic.Ltac.Instruction.{
  Operator, Argument, Instruction, Address, AddressRegister, base_hard, base_pseudo, register,
  pseudo_register, address, literal, int,
}

-- What the jumps ask of the flags: equal, below as signed numbers, below as unsigned ones.
pub record Flags : Type 0 where
  pub zero : Bool
  pub less : Bool
  pub below : Bool

-- Flags that are `none` are those of an arithmetic operation, which no jump may read.
pub record Machine (M : Type 0) : Type 0 where
  pub registers : ℕ → ℕ
  pub pseudo_registers : ℕ → ℕ
  pub memory : M
  pub flags : Option Flags

pub record Target (M : Type 0) : Type 0 where
  pub load : Size → M → ℕ → ℕ
  pub symbol : String → ℕ
  pub other : Instruction → Machine M → Option (Machine M)

abbrev pub or_else : ℕ → Option ℕ → ℕ
or_else n none = n
or_else n (some k) = k

module _ {M : Type 0} where
  abbrev pub put : ℕ → ℕ → Machine M → Machine M
  put r v m = record m { registers = λ x. if x == r then v else m.registers x }

  -- a result of an arithmetic operation
  abbrev pub put_result : ℕ → ℕ → Machine M → Machine M
  put_result r v m = record m { registers = λ x. if x == r then v else m.registers x; flags = none }

  abbrev pub compared : ℕ → ℕ → Machine M → Machine M
  compared a b m = record m {
    flags = some (record { zero = a == b; less = Word.less a b; below = ltb a b });
  }

  -- the flags of OR: sign and zero of the result, no carry, no overflow
  abbrev pub tested : ℕ → Machine M → Machine M
  tested v m = record m {
    flags = some (record { zero = v == 0; less = Word.is_negative v; below = false });
  }

  abbrev pub IsWords : Machine M → Type 0
  IsWords m = (r : ℕ) → IsWord (m.registers r) × IsWord (m.pseudo_registers r)

  abbrev pub address_value : Machine M → Option AddressRegister → Option ℕ
  address_value m none = some 0
  address_value m (some (base_hard r)) = some (m.registers r)
  address_value m (some (base_pseudo r)) = some (m.pseudo_registers r)
  address_value m _ = none

  module _ (t : Target M) where
    abbrev pub label_value : Option String → ℕ
    label_value none = 0
    label_value (some s) = t.symbol s

    -- base + scale * scaled + displacement + label
    unfoldable pub effective : Machine M → Address → Option ℕ
    effective m a = do
      base ← address_value m a.base_register
      scaled ← address_value m a.scaled_register
      some (
          Word.add (Word.add base (Word.mul scaled (or_else 1 a.scale)))
            (Word.add (or_else 0 a.displacement) (label_value a.absolute)))

    -- An operand. Only what is in memory has a size other than the default.
    abbrev pub read : Machine M → Size → Argument → Option ℕ
    read m default (register r) = some (m.registers r)
    read m default (pseudo_register r) = some (m.pseudo_registers r)
    read m default (int n) = some n
    read m default (literal s) = some (t.symbol s)
    read m size (address a) = effective m a >>= λ n. some (t.load size m.memory n)
    read m _ _ = none

    unfoldable pub binary :
        (ℕ → ℕ → ℕ)
        → Instruction
        → Machine M
        → Option Argument
        → Option Argument
        → Option (Machine M)
    binary f i m none b = none
    binary f i m (some (register r)) none = none
    binary f i m (some (register r)) (some a) =
        read m default a >>= λ v. some (put_result r (f (m.registers r) v) m)
    binary f i m (some a) b = t.other i m

    unfoldable pub move :
        Instruction → Machine M → Option Argument → Option Argument → Option (Machine M)
    move i m none b = none
    move i m (some a) none = none
    move i m (some (register r)) (some a) = read m i.size a >>= λ v. some (put r v m)
    move i m (some a) b = t.other i m

    -- There is no multiplication of two literals.
    unfoldable pub multiply3 :
        Instruction → Machine M → Option Argument → Option Argument → Option (Machine M)
    multiply3 i m none b = none
    multiply3 i m (some (register r)) none = none
    multiply3 i m (some (register r)) (some (int n)) = none
    multiply3 i m (some a) b = t.other i m

    unfoldable pub compare :
        Instruction → Machine M → Option Argument → Option Argument → Option (Machine M)
    compare i m none b = none
    compare i m (some (register r)) none = none
    compare i m (some (register r)) (some a) =
        read m default a >>= λ v. some (compared (m.registers r) v m)
    compare i m (some a) b = t.other i m

    -- The optimiser uses OR of a register with itself, as a test.
    unfoldable pub or_op :
        Instruction → Machine M → Option Argument → Option Argument → Option (Machine M)
    or_op i m (some (register r)) (some (register s)) =
        let v = bit_or (m.registers r) (m.registers s) in some (tested v (put r v m))
    or_op i m a b = t.other i m

    unfoldable pub load_address :
        Instruction → Machine M → Option Argument → Option Argument → Option (Machine M)
    load_address i m (some (register r)) (some (address a)) =
        effective m a >>= λ n. some (put r n m)
    load_address i m a b = none

    abbrev shift : ℕ → ℕ → ℕ
    shift a k = Word.mul a (2 ^ k)

    abbrev pub increment : ℕ → Instruction → Machine M → Option Argument → Option (Machine M)
    increment n i m (some (register r)) = some (put_result r (Word.add (m.registers r) n) m)
    increment n i m a = t.other i m

    unfoldable pub run_operator : Operator → Instruction → Machine M → Option (Machine M)
    run_operator Operator.nop i m = some m
    run_operator Operator.add i m = binary Word.add i m i.arg1 i.arg2
    run_operator Operator.sub i m = binary Word.sub i m i.arg1 i.arg2
    run_operator Operator.mul2 i m = binary Word.mul i m i.arg1 i.arg2
    run_operator Operator.xor i m = binary bit_xor i m i.arg1 i.arg2
    run_operator Operator.shift_left i m = binary shift i m i.arg1 i.arg2
    run_operator Operator.mul3 i m = multiply3 i m i.arg1 i.arg2
    run_operator Operator.inc i m = increment 1 i m i.arg1
    run_operator Operator.dec i m = increment Word.minus_one i m i.arg1
    run_operator Operator.mov i m = move i m i.arg1 i.arg2
    run_operator Operator.cmp_int i m = compare i m i.arg1 i.arg2
    run_operator Operator.or i m = or_op i m i.arg1 i.arg2
    run_operator Operator.lea i m = load_address i m i.arg1 i.arg2
    run_operator _ i m = t.other i m

    unfoldable pub run : Instruction → Machine M → Option (Machine M)
    unfolding run_operator
    run i m = run_operator i.op i m

  -- The same registers and memory; the flags too, where the first has any.
  pub record Agrees (m n : Machine M) : Type 0 where
    pub registers_agree : (r : ℕ) → m.registers r ≡ n.registers r
    pub pseudo_agree : (r : ℕ) → m.pseudo_registers r ≡ n.pseudo_registers r
    pub memory_agrees : m.memory ≡ n.memory
    pub flags_agree : (m.flags ≡ none) ⊎ (m.flags ≡ n.flags)

  -- The same, whatever the flags are.
  pub record AgreesButFlags (m n : Machine M) : Type 0 where
    pub registers_agree : (r : ℕ) → m.registers r ≡ n.registers r
    pub pseudo_agree : (r : ℕ) → m.pseudo_registers r ≡ n.pseudo_registers r
    pub memory_agrees : m.memory ≡ n.memory
