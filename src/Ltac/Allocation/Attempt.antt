-- ===== src/Ltac/Allocation/Attempt.antt =====
-- src/ltac/register_allocator.cpp: number_of_registers and hard_registers, and a round of
-- register_allocation that coalesces nothing, from the build of the graph to the spilled registers
-- or the colours. The registers gathered, the sets of live registers and the spill costs are given.
pub mod Total
pub mod Apart
pub mod Colored
use eddic.Prelude.{
  ℕ, ◌==◌, Bool, true, false, Option, none, some, List, [], ◌∷◌, if◌then◌else◌, ◌>>=◌,
}
use eddic.Platform.{Platform, get_platform_descriptor}
use eddic.Ltac.Allocation.Graph.{Graph, size, build_interference_graph}
use eddic.Ltac.Allocation.Simplify.{Doubles, simplify}
use eddic.Ltac.Allocation.Select.{Allocation, select}

-- The instances of the templates: for PseudoRegister and for PseudoFloatRegister.
pub data RegisterClass : Type 0 where
  int_registers float_registers : RegisterClass

unfoldable pub number_of_registers : RegisterClass → Platform → ℕ
number_of_registers int_registers platform = (get_platform_descriptor platform).number_of_registers
number_of_registers float_registers platform =
    (get_platform_descriptor platform).number_of_float_registers

unfoldable pub hard_registers : RegisterClass → Platform → List ℕ
hard_registers int_registers platform = (get_platform_descriptor platform).symbolic_registers
hard_registers float_registers platform =
    (get_platform_descriptor platform).symbolic_float_registers

-- What a round ends with: no register, registers to spill, or the registers of `allocation` with
-- `variable_allocated`.
pub data Outcome : Type 0 where
  no_register : Outcome
  to_spill : List ℕ → Outcome
  allocated : Allocation → List ℕ → Outcome

-- if(!spilled.empty())
unfoldable pub spill_or_select : RegisterClass → Platform → Graph → List ℕ → List ℕ → Option Outcome
unfolding hard_registers
spill_or_select c platform g order [] = do
  (allocation, given) ← select g (hard_registers c platform) order
  some (allocated allocation given)
spill_or_select c platform g order (reg ∷ rest) = some (to_spill (reg ∷ rest))

module _ {D : Type 0} (d : Doubles D) where
  unfoldable pub register_allocation :
      RegisterClass → Platform → Graph → List (List ℕ) → List ℕ → Option Outcome
  unfolding number_of_registers spill_or_select
  register_allocation c platform gathered lives costs =
      let built = build_interference_graph gathered lives in
      let estimated = record built { spill_costs = costs } in
      let (left, spilled, order, n) = simplify d estimated (number_of_registers c platform) in
      let ended = spill_or_select c platform left order spilled in
      if size built == 0 then some no_register else ended
