-- ===== src/Ltac/Allocation/Spill.antt =====
-- src/ltac/register_allocator.cpp: the registers in an instruction, their replacement, and the spill
-- code of a register in a block; erase_result and erase_result_complete of src/ltac/Operator.cpp.
-- `none` is the read of a first argument that is not there. The loop over the instructions, which
-- steps over what it inserts, is a recursion over the instructions that it came with.
pub mod Gone
pub mod Named
pub mod Unset
use eddic.Prelude.{
  ℕ, zero, suc, ◌+◌, ◌%◌, ◌^◌, Bool, true, false, ◌||◌, Option, none, some, List, [], ◌∷◌, ◌++◌,
  ◌==◌, if◌then◌else◌, ◌>>=◌,
}
use eddic.Mtac.Quadruple.{default}
use eddic.Ltac.Instruction.{
  Operator, AddressRegister, base_hard, base_pseudo, base_pseudo_float, Address, Argument, register,
  pseudo_register, pseudo_float_register, address, Instruction,
}
use eddic.Ltac.Allocation.Attempt.{RegisterClass, int_registers, float_registers}

unfoldable pub erase_result : Operator → Bool
erase_result Operator.div = false
erase_result Operator.mov = true
erase_result Operator.fmov = true
erase_result Operator.mul3 = true
erase_result Operator.xor = true
erase_result Operator.or = true
erase_result Operator.lea = true
erase_result Operator.shift_left = true
erase_result Operator.shift_right = true
erase_result Operator.add = true
erase_result Operator.sub = true
erase_result Operator.mul2 = true
erase_result Operator.fadd = true
erase_result Operator.fsub = true
erase_result Operator.fmul = true
erase_result Operator.fdiv = true
erase_result Operator.inc = true
erase_result Operator.dec = true
erase_result Operator.neg = true
erase_result Operator.not = true
erase_result Operator.and = true
erase_result Operator.i2f = true
erase_result Operator.f2i = true
erase_result Operator.cmove = true
erase_result Operator.cmovne = true
erase_result Operator.cmova = true
erase_result Operator.cmovae = true
erase_result Operator.cmovb = true
erase_result Operator.cmovbe = true
erase_result Operator.cmovg = true
erase_result Operator.cmovge = true
erase_result Operator.cmovl = true
erase_result Operator.cmovle = true
erase_result _ = false

unfoldable pub erase_result_complete : Operator → Bool
erase_result_complete Operator.mov = true
erase_result_complete Operator.fmov = true
erase_result_complete Operator.lea = true
erase_result_complete Operator.mul3 = true
erase_result_complete _ = false

-- boost::get<Pseudo>
abbrev pub pseudo_of_argument : RegisterClass → Argument → Option ℕ
pseudo_of_argument int_registers (pseudo_register r) = some r
pseudo_of_argument float_registers (pseudo_float_register r) = some r
pseudo_of_argument c _ = none

abbrev pub pseudo_of_address : RegisterClass → AddressRegister → Option ℕ
pseudo_of_address int_registers (base_pseudo r) = some r
pseudo_of_address float_registers (base_pseudo_float r) = some r
pseudo_of_address c _ = none

abbrev pub pseudo_argument : RegisterClass → ℕ → Argument
pseudo_argument int_registers r = pseudo_register r
pseudo_argument float_registers r = pseudo_float_register r

abbrev pub pseudo_address : RegisterClass → ℕ → AddressRegister
pseudo_address int_registers r = base_pseudo r
pseudo_address float_registers r = base_pseudo_float r

abbrev pub is_register : Option ℕ → ℕ → Bool
is_register none reg = false
is_register (some r) reg = reg == r

abbrev pub contains_reg_addr : RegisterClass → Option AddressRegister → ℕ → Bool
contains_reg_addr c none reg = false
contains_reg_addr c (some r) reg = is_register (pseudo_of_address c r) reg

abbrev pub contains_reg : RegisterClass → Option Argument → ℕ → Bool
contains_reg c none reg = false
contains_reg c (some (address a)) reg =
    contains_reg_addr c a.base_register reg || contains_reg_addr c a.scaled_register reg
contains_reg c (some arg) reg = is_register (pseudo_of_argument c arg) reg

abbrev pub is_load : RegisterClass → Instruction → ℕ → Bool
is_load c i reg =
    contains_reg c i.arg1 reg || (contains_reg c i.arg2 reg || contains_reg c i.arg3 reg)

-- whether the first argument, which must be there, is the register
abbrev pub is_destination : RegisterClass → Instruction → ℕ → Option Bool
is_destination c i reg = do arg ← i.arg1; some (is_register (pseudo_of_argument c arg) reg)

unfoldable pub is_store_complete : RegisterClass → Instruction → ℕ → Option Bool
unfolding erase_result_complete
is_store_complete c i reg =
    let first = is_destination c i reg in if erase_result_complete i.op then first else some false

unfoldable pub is_store : RegisterClass → Instruction → ℕ → Option Bool
unfolding erase_result
is_store c i reg =
    let first = is_destination c i reg in if erase_result i.op then first else some false

abbrev pub replace_reg_addr :
    RegisterClass → ℕ → ℕ → Option AddressRegister → Option AddressRegister
replace_reg_addr c source target none = none
replace_reg_addr c source target (some r) =
    if is_register (pseudo_of_address c r) source then some (pseudo_address c target) else some r

abbrev pub replace_argument : RegisterClass → ℕ → ℕ → Option Argument → Option Argument
replace_argument c source target none = none
replace_argument c source target (some (address a)) = some (
    address (record a {
      base_register = replace_reg_addr c source target a.base_register;
      scaled_register = replace_reg_addr c source target a.scaled_register;
    }))
replace_argument c source target (some arg) =
    if is_register (pseudo_of_argument c arg) source
    then some (pseudo_argument c target)
    else some arg

abbrev pub replace_register : RegisterClass → ℕ → ℕ → Instruction → Instruction
replace_register c source target i = record i {
  arg1 = replace_argument c source target i.arg1;
  arg2 = replace_argument c source target i.arg2;
  arg3 = replace_argument c source target i.arg3;
}

abbrev pub move_of : RegisterClass → Operator
move_of int_registers = Operator.mov
move_of float_registers = Operator.fmov

-- Address(BP, position)
abbrev pub slot : ℕ → Argument
slot position = address (record {
  base_register = some (base_hard 1001);
  scaled_register = none;
  scale = none;
  displacement = some position;
  absolute = none;
})

abbrev pub spill_load : RegisterClass → ℕ → ℕ → Instruction
spill_load c pseudo position = record {
  op = move_of c;
  arg1 = some (pseudo_argument c pseudo);
  arg2 = some (slot position);
  arg3 = none;
  size = default;
}

abbrev pub spill_store : RegisterClass → ℕ → ℕ → Instruction
spill_store c pseudo position = record {
  op = move_of c;
  arg1 = some (slot position);
  arg2 = some (pseudo_argument c pseudo);
  arg3 = none;
  size = default;
}

-- One instruction: what stands in its place, and `current_reg`, a std::size_t. The number of a register
-- is an unsigned short.
unfoldable pub spill_instruction :
    RegisterClass → ℕ → ℕ → ℕ → Instruction → Option (List Instruction × ℕ)
unfolding is_store_complete is_store
spill_instruction c reg position current_reg i = do
  complete ← is_store_complete c i reg
  store ← is_store c i reg
  (let next = (current_reg + 1) % 2 ^ 64 in
      let new_reg = next % 2 ^ 16 in
      let replaced = replace_register c reg new_reg i in
      let load = spill_load c new_reg position in
      let keep = spill_store c new_reg position in
      some (
        if complete
        then (replaced ∷ keep ∷ [], next)
        else if store
        then (load ∷ replaced ∷ keep ∷ [], next)
        else if is_load c i reg
        then (load ∷ replaced ∷ [], next)
        else (i ∷ [], current_reg)))

unfoldable pub spill_block :
    RegisterClass → ℕ → ℕ → List Instruction → ℕ → Option (List Instruction × ℕ)
unfolding spill_instruction
spill_block c reg position [] current_reg = some ([], current_reg)
spill_block c reg position (i ∷ rest) current_reg = do
  (spilled, current) ← spill_instruction c reg position current_reg i
  (others, last) ← spill_block c reg position rest current
  some (spilled ++ others, last)
