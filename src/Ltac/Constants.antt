-- ===== src/Ltac/Constants.antt =====
-- src/ltac/PeepholeOptimizer.cpp: constant_propagation, over the instructions of one block. The map
-- from registers to constants is a function.
pub mod Writes
pub mod Holds
pub mod Division
pub mod Sound
use eddic.Prelude.{
  ℕ, Bool, true, false, Option, none, some, List, [], ◌∷◌, ◌==◌, if◌then◌else◌, ◌>>=◌,
}
use eddic.Ltac.Instruction.{Operator, Argument, Instruction, register, int}

abbrev pub Constants : Type 0
Constants = ℕ → Option ℕ

abbrev pub erase : ℕ → Constants → Constants
erase r constants = λ x. if x == r then none else constants x

abbrev pub insert : ℕ → ℕ → Constants → Constants
insert r v constants = λ x. if x == r then some v else constants x

-- the destination is forgotten
unfoldable pub erase_constant : Option Argument → Constants → Constants
erase_constant (some (register r)) constants = erase r constants
erase_constant a constants = constants

unfoldable pub collect_xor : Option Argument → Option Argument → Constants → Option Constants
collect_xor none b constants = none
collect_xor (some (register r)) none constants = none
collect_xor (some (register r)) (some (register s)) constants =
    if r == s then some (insert r 0 constants) else some constants
collect_xor a b constants = some constants

unfoldable pub collect_mov : Option Argument → Option Argument → Constants → Option Constants
collect_mov none b constants = none
collect_mov (some (register r)) none constants = none
collect_mov (some (register r)) (some (int v)) constants = some (insert r v constants)
collect_mov a b constants = some constants

unfoldable pub collect : Operator → Option Argument → Option Argument → Constants → Option Constants
collect Operator.xor a b constants = collect_xor a b constants
collect Operator.mov a b constants = collect_mov a b constants
collect _ a b constants = some constants

-- the register in a MOV gives way to its constant
abbrev replace : Instruction → Option ℕ → Bool → Instruction × Bool
replace i none optimized = (i, optimized)
replace i (some v) optimized = (record i { arg2 = some (int v) }, true)

unfoldable pub optimize_source :
    Instruction → Option Argument → Constants → Bool → Option (Instruction × Bool)
optimize_source i none constants optimized = none
optimize_source i (some (register s)) constants optimized = some (replace i (constants s) optimized)
optimize_source i a constants optimized = some (i, optimized)

unfoldable pub propagate : Operator → Instruction → Constants → Bool → Option (Instruction × Bool)
propagate Operator.mov i constants optimized = optimize_source i i.arg2 constants optimized
propagate _ i constants optimized = some (i, optimized)

-- the loop over the instructions, with the constants of those before
unfoldable pub propagate_block :
    List Instruction → Constants → Bool → Option (List Instruction × Bool)
unfolding erase_constant collect propagate
propagate_block [] constants optimized = some ([], optimized)
propagate_block (i ∷ rest) constants optimized = do
  known ← collect i.op i.arg1 i.arg2 (erase_constant i.arg1 constants)
  (j, changed) ← propagate i.op i known optimized
  (others, result) ← propagate_block rest known changed
  some (j ∷ others, result)

unfoldable pub constant_propagation : List Instruction → Bool → Option (List Instruction × Bool)
unfolding propagate_block
constant_propagation l_statements optimized = propagate_block l_statements (λ r. none) optimized
