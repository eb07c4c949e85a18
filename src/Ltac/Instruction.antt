-- ===== src/Ltac/Instruction.antt =====
-- include/ltac: Operator.hpp, Register.hpp, Address.hpp, Argument.hpp and Instruction.hpp, and
-- transform_to_nop of src/ltac/Utils.cpp. A hard register is its number. Of an instruction the fields
-- are kept that the optimiser reads or writes.
use Prim.Native.String.{String}
use eddic.Prelude.{ℕ, Option, none, some}
use eddic.Mtac.Quadruple.{Size}

pub data Operator : Type 0 where
  mov fmov mul3 enter leave ret pre_ret label : Operator
  cmp_int cmp_float or xor push pop lea shift_left shift_right : Operator
  add sub mul2 div fadd fsub fmul fdiv inc dec neg not and i2f f2i : Operator
  cmove cmovne cmova cmovae cmovb cmovbe cmovg cmovge cmovl cmovle : Operator
  pre_param nop xorps movdqu always call ne e ge g le l b be a ae p z nz : Operator

pub data AddressRegister : Type 0 where
  base_hard base_pseudo base_pseudo_float base_float : ℕ → AddressRegister

pub record Address : Type 0 where
  pub base_register : Option AddressRegister
  pub scaled_register : Option AddressRegister
  pub scale : Option ℕ
  pub displacement : Option ℕ
  pub absolute : Option String

-- A double is never looked into: only its place in the source is kept.
pub data Argument : Type 0 where
  float_register register pseudo_float_register pseudo_register : ℕ → Argument
  address : Address → Argument
  literal : String → Argument
  double int : ℕ → Argument

pub record Instruction : Type 0 where
  pub op : Operator
  pub arg1 : Option Argument
  pub arg2 : Option Argument
  pub arg3 : Option Argument
  pub size : Size

-- a value of the smaller variant in the larger one
abbrev pub of_address_register : AddressRegister → Argument
of_address_register (base_hard r) = register r
of_address_register (base_pseudo r) = pseudo_register r
of_address_register (base_pseudo_float r) = pseudo_float_register r
of_address_register (base_float r) = float_register r

-- The constructor of Address that the optimiser calls here.
abbrev pub scaled_address : ℕ → ℕ → ℕ → ℕ → Address
scaled_address r t k n = record {
  base_register = some (base_hard r);
  scaled_register = some (base_hard t);
  scale = some k;
  displacement = some n;
  absolute = none;
}

abbrev pub nop_of : Instruction → Instruction
nop_of i = record { op = nop; arg1 = none; arg2 = none; arg3 = none; size = i.size }
