-- ===== src/Ltac/Copies.antt =====
-- src/ltac/PeepholeOptimizer.cpp: copy_propagation and remove_reg, over the instructions of one block.
-- The map from a register to the one that it is a copy of is a function.
pub mod Agreement
pub mod Sound
use eddic.Prelude.{
  ℕ, Bool, true, false, Option, none, some, List, [], ◌∷◌, ◌==◌, if◌then◌else◌, ◌>>=◌,
}
use eddic.Platform.{PlatformDescriptor}
use eddic.Mtac.Quadruple.{Size, default}
use eddic.Ltac.Instruction.{Operator, Argument, Instruction, register}

abbrev pub Copies : Type 0
Copies = ℕ → Option ℕ

abbrev pub unless : ℕ → Option ℕ → Option ℕ
unless r none = none
unless r (some y) = if y == r then none else some y

-- what copies the register, and what it is a copy of
abbrev pub remove_reg : ℕ → Copies → Copies
remove_reg r copies = λ x. if x == r then none else unless r (copies x)

unfoldable pub remove_destination : Option Argument → Copies → Copies
remove_destination (some (register r)) copies = remove_reg r copies
remove_destination a copies = copies

unfoldable pub remove_implicit : PlatformDescriptor → Operator → Copies → Copies
remove_implicit descriptor Operator.div copies =
    remove_reg descriptor.d_register (remove_reg descriptor.a_register copies)
remove_implicit descriptor _ copies = copies

abbrev pub insert : ℕ → ℕ → Copies → Copies
insert r s copies = λ x. if x == r then some s else copies x

unfoldable pub collect_copy : Option Argument → Option Argument → Copies → Option Copies
collect_copy none b copies = none
collect_copy (some (register r)) none copies = none
collect_copy (some (register r)) (some (register s)) copies = some (insert r s copies)
collect_copy a b copies = some copies

unfoldable pub collect : Operator → Option Argument → Option Argument → Copies → Option Copies
collect Operator.mov a b copies = collect_copy a b copies
collect _ a b copies = some copies

-- the register in a MOV gives way to the one that it is a copy of
abbrev replace : Instruction → Option ℕ → Bool → Instruction × Bool
replace i none optimized = (i, optimized)
replace i (some s) optimized = (record i { arg2 = some (register s) }, true)

unfoldable pub optimize_copy :
    Instruction → Size → Option Argument → Copies → Bool → Option (Instruction × Bool)
optimize_copy i default none copies optimized = none
optimize_copy i default (some (register s)) copies optimized = some (replace i (copies s) optimized)
optimize_copy i size a copies optimized = some (i, optimized)

unfoldable pub propagate : Operator → Instruction → Copies → Bool → Option (Instruction × Bool)
propagate Operator.mov i copies optimized = optimize_copy i i.size i.arg2 copies optimized
propagate _ i copies optimized = some (i, optimized)

-- the loop over the instructions, with the copies of those before
unfoldable pub propagate_block :
    PlatformDescriptor → List Instruction → Copies → Bool → Option (List Instruction × Bool)
unfolding remove_destination remove_implicit collect propagate
propagate_block descriptor [] copies optimized = some ([], optimized)
propagate_block descriptor (i ∷ rest) copies optimized = do
  let remaining = remove_implicit descriptor i.op (remove_destination i.arg1 copies)
  known ← collect i.op i.arg1 i.arg2 remaining
  (j, changed) ← propagate i.op i known optimized
  (others, result) ← propagate_block descriptor rest known changed
  some (j ∷ others, result)

unfoldable pub copy_propagation :
    PlatformDescriptor → List Instruction → Bool → Option (List Instruction × Bool)
unfolding propagate_block
copy_propagation descriptor l_statements optimized =
    propagate_block descriptor l_statements (λ r. none) optimized
