-- ===== src/Checks/Spill.antt =====
-- The spill code of register 4 in a block, with 9 registers before.
use eddic.Prelude.{ℕ, ◌+◌, ◌&&◌, ◌||◌, ◌≡◌, refl, arith, true, none, some, List, [], ◌∷◌}
use eddic.Mtac.Quadruple.{default}
use eddic.Ltac.Instruction.{
  Operator, base_pseudo, Address, Argument, pseudo_register, address, int, Instruction,
}
use eddic.Ltac.Allocation.Attempt.{int_registers}
use eddic.Ltac.Allocation.Spill.{
  erase_result, erase_result_complete, contains_reg, replace_register, spill_store, spill_load,
  is_store_complete, is_store, spill_instruction, spill_block,
}
use eddic.Ltac.Allocation.Spill.Gone.{AllFree, HaveFirst, has_first, spill_block-AllFree}
use eddic.Ltac.Allocation.Spill.Named.{reads_unset, sets}
use eddic.Ltac.Allocation.Spill.Unset.{spill_instruction-reads_unset}

abbrev base : Address
base = record {
  base_register = some (base_pseudo 4);
  scaled_register = none;
  scale = none;
  displacement = some 8;
  absolute = none;
}

abbrev binary : Operator → Argument → Argument → Instruction
binary op a b = record { op = op; arg1 = some a; arg2 = some b; arg3 = none; size = default }

abbrev load_next : Instruction
load_next = binary Operator.mov (pseudo_register 4) (address base)

abbrev block : List Instruction
block =
    binary Operator.mov (pseudo_register 4) (int 1)
    ∷ binary Operator.add (pseudo_register 4) (pseudo_register 2)
    ∷ load_next
    ∷ binary Operator.cmp_int (pseudo_register 2) (pseudo_register 4)
    ∷ []

block-HaveFirst : HaveFirst block
unfolding erase_result erase_result_complete
block-HaveFirst = (refl, (refl, (refl, (refl, tt))))

spill_block-run :
    spill_block int_registers 4 20 block 9
    ≡ some (
      binary Operator.mov (pseudo_register 10) (int 1)
          ∷ spill_store int_registers 10 20
          ∷ spill_load int_registers 11 20
          ∷ binary Operator.add (pseudo_register 11) (pseudo_register 2)
          ∷ spill_store int_registers 11 20
          ∷ binary Operator.mov
              (pseudo_register 12)
              (address (record base { base_register = some (base_pseudo 12) }))
          ∷ spill_store int_registers 12 20
          ∷ spill_load int_registers 13 20
          ∷ binary Operator.cmp_int (pseudo_register 2) (pseudo_register 13)
          ∷ [],
      13,
    )
unfolding spill_block spill_instruction is_store_complete is_store erase_result
    erase_result_complete
spill_block-run = refl

spill_block-AllFree_example :
    (code : List Instruction) × (last : ℕ) × (spill_block int_registers 4 20 block 9
      ≡ some (code, last))
    × AllFree int_registers 4 code
spill_block-AllFree_example =
    spill_block-AllFree int_registers 4 20 block 9 (omega arith) (omega arith) block-HaveFirst

-- MOV 4, [4 + 8] becomes MOV 10, [10 + 8] and a store of 10.
load_next-run :
    spill_instruction int_registers 4 20 9 load_next
    ≡ some
        (replace_register int_registers 4 10 load_next ∷ spill_store int_registers 10 20 ∷ [], 10)
unfolding spill_instruction is_store_complete is_store erase_result erase_result_complete
load_next-run = refl

load_next-reads_unset :
    reads_unset int_registers 10
      (replace_register int_registers 4 10 load_next ∷ spill_store int_registers 10 20 ∷ [])
    ≡ true
unfolding erase_result_complete
load_next-reads_unset = refl

load_next-has_first : has_first load_next ≡ true
unfolding erase_result erase_result_complete
load_next-has_first = refl

spill_instruction-reads_unset_example :
    (code : List Instruction) × (last : ℕ) × (spill_instruction int_registers 4 20 9 load_next
      ≡ some (code, last))
    × (reads_unset int_registers (9 + 1) code ≡ (
        sets int_registers load_next 4
        && (contains_reg int_registers load_next.arg2 4
            || contains_reg int_registers load_next.arg3 4)))
spill_instruction-reads_unset_example =
    spill_instruction-reads_unset int_registers 4 20 9 load_next (omega arith) load_next-has_first
      refl
