-- ===== src/Ltac/Allocation/Replace.antt =====
-- src/ltac/register_allocator.cpp: replace_registers, without update_uses, which fills fields that
-- the model of an instruction leaves out. The allocation is a function of the numbers of the pseudo
-- registers.
pub mod Hard
use eddic.Prelude.{ℕ, Bool, true, false, Option, none, some, List, [], ◌∷◌, ◌>>=◌}
use eddic.Ltac.Instruction.{
  AddressRegister, base_hard, base_pseudo, base_pseudo_float, base_float, Address, Argument,
  register, float_register, pseudo_register, pseudo_float_register, address, Instruction,
}
use eddic.Ltac.Allocation.Graph.{Graph, find_index}
use eddic.Ltac.Allocation.Attempt.{RegisterClass, int_registers, float_registers}
use eddic.Ltac.Allocation.Select.{Allocation}

-- a register of the class in the place of another
abbrev pub hard_or : Option ℕ → (ℕ → Argument) → Argument → Argument
hard_or none hard old = old
hard_or (some r) hard old = hard r

abbrev pub hard_address_or : Option ℕ → (ℕ → AddressRegister) → AddressRegister → AddressRegister
hard_address_or none hard old = old
hard_address_or (some r) hard old = hard r

abbrev pub update_reg : RegisterClass → Allocation → Option AddressRegister → Option AddressRegister
update_reg int_registers allocation (some (base_pseudo r)) =
    some (hard_address_or (allocation r) base_hard (base_pseudo r))
update_reg float_registers allocation (some (base_pseudo_float r)) =
    some (hard_address_or (allocation r) base_float (base_pseudo_float r))
update_reg c allocation reg = reg

abbrev pub update : RegisterClass → Allocation → Option Argument → Option Argument
update c allocation (some (address a)) = some (
    address (record a {
      base_register = update_reg c allocation a.base_register;
      scaled_register = update_reg c allocation a.scaled_register;
    }))
update int_registers allocation (some (pseudo_register r)) =
    some (hard_or (allocation r) register (pseudo_register r))
update float_registers allocation (some (pseudo_float_register r)) =
    some (hard_or (allocation r) float_register (pseudo_float_register r))
update c allocation arg = arg

unfoldable pub replace_registers : RegisterClass → Allocation → List Instruction → List Instruction
replace_registers c allocation [] = []
replace_registers c allocation (i ∷ rest) =
    record i {
      arg1 = update c allocation i.arg1;
      arg2 = update c allocation i.arg2;
      arg3 = update c allocation i.arg3;
    }
    ∷ replace_registers c allocation rest

-- The allocation of nodes, by the numbers of their registers: `register_allocation` of the
-- replacement that select calls.
abbrev pub allocation_of_numbers : Graph → Allocation → Allocation
allocation_of_numbers g allocation = λ x. do node ← find_index g.pseudo_to_index x; allocation node
