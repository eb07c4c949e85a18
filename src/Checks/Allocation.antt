-- ===== src/Checks/Allocation.antt =====
-- The register allocator on three registers, one of them bound, that are live together.
use eddic.Prelude.{
  ℕ, ◌<◌, ◌≡◌, ◌*◌, refl, arith, true, false, none, some, List, [], ◌∷◌, contains, ltb, ◌&&◌, ◌||◌,
  ◌==◌, IsDistinct,
}
use mathlib.Core.Bool.{not}
use eddic.Mtac.Quadruple.{default}
use eddic.Ltac.Instruction.{Operator, Instruction, pseudo_register}
use eddic.Ltac.Allocation.Spill.Gone.{AllFree}
use eddic.Ltac.Allocation.Replace.{replace_registers, allocation_of_numbers}
use eddic.Ltac.Allocation.Replace.Hard.{replace_registers-register_allocation}
use eddic.Platform.{intel_x86}
use eddic.Ltac.Allocation.Graph.{
  Graph, PseudoRegister, size, find_index, index_of, pseudo_of, gather, gather_all, no_graph,
  neighbors, build_graph, connect_live, connect_pairs, connect_to, add_edge, set_bit, new_matrix,
  is_set, adjacent, adjacency, build_adjacency_vectors, build_interference_graph, remove_node,
  remove_edges, remove_edge, clear_bit, spill_cost,
}
use eddic.Ltac.Allocation.Graph.Pairs.{are_live_once, AreBelow}
use eddic.Ltac.Allocation.Graph.Live.{contains-neighbors_built}
use eddic.Ltac.Allocation.Graph.Gathered.{convert_convert}
use eddic.Ltac.Allocation.Simplify.{
  Doubles, degree, degree_loop, numbers, queue_bound, erase_node, find_candidate, spill_heuristic,
  cheapest, simplify_loop, simplify,
}
use eddic.Ltac.Allocation.Simplify.Order.{IsLow}
use eddic.Ltac.Allocation.Simplify.Loop.{simplify_lem}
use eddic.Ltac.Allocation.Select.{
  Allocation, allocate, is_taken, free_color, allocate_bound, select_loop, select,
}
use eddic.Ltac.Allocation.Attempt.{
  int_registers, number_of_registers, hard_registers, Outcome, allocated, spill_or_select,
  register_allocation,
}
use eddic.Ltac.Allocation.Attempt.Total.{register_allocation-total}
use eddic.Ltac.Allocation.Attempt.Apart.{AreApart, register_allocation-AreApart}

abbrev doubles : Doubles (ℕ × ℕ)
doubles = record { quotient = λ a b. (a, b); less = λ x y. ltb (x.0 * y.1) (y.0 * x.1) }

abbrev free : ℕ → PseudoRegister
free reg = record { reg = reg; bound = false; binding = 0 }

abbrev registers : List PseudoRegister
registers = free 5 ∷ record { reg = 9; bound = true; binding = 1 } ∷ free 7 ∷ []

abbrev lives : List (List ℕ)
lives = (0 ∷ 1 ∷ 2 ∷ []) ∷ (2 ∷ []) ∷ []

abbrev gathered : Graph
gathered = gather_all registers no_graph

abbrev built : Graph
built = build_interference_graph gathered lives

lives-AreBelow : AreBelow (size gathered) lives
unfolding gather_all gather find_index size
lives-AreBelow = ((omega arith, (omega arith, (omega arith, tt))), ((omega arith, tt), tt))

fresh : gathered.adjacency_vectors ≡ []
unfolding gather_all gather find_index
fresh = refl

abbrev allocation : Allocation
allocation = allocate 0 2 (allocate 2 0 (allocate 1 1 (λ r. none)))

register_allocation-gathered :
    register_allocation doubles int_registers intel_x86 gathered lives (4 ∷ 4 ∷ 4 ∷ [])
    ≡ some (allocated allocation (2 ∷ 0 ∷ []))
unfolding gather_all gather find_index size build_interference_graph build_graph new_matrix
    connect_live connect_pairs connect_to add_edge set_bit build_adjacency_vectors adjacency
    adjacent is_set register_allocation number_of_registers spill_or_select hard_registers simplify
    queue_bound remove_node remove_edges remove_edge clear_bit neighbors simplify_loop
    find_candidate degree degree_loop spill_heuristic cheapest erase_node numbers pseudo_of select
    allocate_bound select_loop free_color is_taken spill_cost
register_allocation-gathered = refl

gathered_free : (pseudo_of gathered 0).bound ≡ false
unfolding gather_all gather find_index pseudo_of
gathered_free = refl

gathered_size : 1 < size gathered
unfolding gather_all gather find_index size
gathered_size = omega arith

built_size : 2 < size built
unfolding gather_all gather find_index size build_interference_graph build_graph new_matrix
    connect_live connect_pairs connect_to add_edge set_bit build_adjacency_vectors
built_size = omega arith

register_allocation-AreApart_example : AreApart allocation 0 1
register_allocation-AreApart_example =
    register_allocation-AreApart doubles int_registers intel_x86 gathered lives (4 ∷ 4 ∷ 4 ∷ [])
      allocation (2 ∷ 0 ∷ []) 0 1 fresh lives-AreBelow register_allocation-gathered refl refl
      gathered_free

register_allocation-total_example :
    (o : Outcome) × (register_allocation doubles int_registers intel_x86 gathered lives
        (4 ∷ 4 ∷ 4 ∷ [])
      ≡ some o)
register_allocation-total_example =
    register_allocation-total doubles int_registers intel_x86 gathered lives (4 ∷ 4 ∷ 4 ∷ [])

contains-neighbors_built_example :
    contains (neighbors built 0) 2 ≡ (not (0 == 2) && are_live_once lives 0 2)
contains-neighbors_built_example = contains-neighbors_built gathered lives 0 2 fresh lives-AreBelow

convert_convert_example :
    (index_of gathered (free 7) < size gathered)
    × ((pseudo_of gathered (index_of gathered (free 7))).reg ≡ 7)
    × (index_of gathered (pseudo_of gathered 1) ≡ 1)
convert_convert_example = convert_convert registers (free 7) 1 refl gathered_size

simplify_lem_example :
    ((simplify doubles built 6).3 ≡ [])
    × ((contains (simplify doubles built 6).2 2 || contains (simplify doubles built 6).1 2) ≡ true)
    × IsDistinct (simplify doubles built 6).2
    × IsLow built 6 (simplify doubles built 6).2
simplify_lem_example = simplify_lem doubles built 6 2 built_size

abbrev block : List Instruction
block =
    record {
      op = Operator.add;
      arg1 = some (pseudo_register 5);
      arg2 = some (pseudo_register 7);
      arg3 = none;
      size = default;
    }
    ∷ []

replace_registers-register_allocation_example :
    AllFree int_registers 7
      (replace_registers int_registers (allocation_of_numbers gathered allocation) block)
replace_registers-register_allocation_example =
    replace_registers-register_allocation doubles int_registers intel_x86 registers lives
      (4 ∷ 4 ∷ 4 ∷ []) allocation (2 ∷ 0 ∷ []) 7 block register_allocation-gathered refl
