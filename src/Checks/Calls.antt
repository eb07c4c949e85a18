-- ===== src/Checks/Calls.antt =====
-- A program of four functions: main calls one that calls main back and one that calls itself.
use eddic.Prelude.{◌≡◌, ◌↔◌, refl, true, false, none, some, List, [], ◌∷◌, contains}
use eddic.Mtac.CallGraph.{
  Function, Program, add_edge, add_calls, build_call_graph, no_calls, visit_edges, visit,
  compute_reachable, remove_unused_functions, topological_order,
}
use eddic.Mtac.CallGraph.Unused.{Reaches, names, remove_unused_functions_iff}
use eddic.Mtac.CallGraph.Order.{topological_order-none}

abbrev functions : List Function
functions =
    record { name = 4; is_main = false; calls = 2 ∷ [] }
    ∷ record { name = 1; is_main = true; calls = 2 ∷ 3 ∷ 2 ∷ [] }
    ∷ record { name = 2; is_main = false; calls = 1 ∷ [] }
    ∷ record { name = 3; is_main = false; calls = 3 ∷ [] }
    ∷ []

abbrev program : Program
program = record { functions = functions; cg = build_call_graph functions no_calls }

entry : (build_call_graph functions no_calls).entry ≡ some 1
unfolding build_call_graph
entry = refl

kept_functions :
    (p : Program) × (remove_unused_functions program ≡ some p)
    × (names p.functions ≡ 1 ∷ 2 ∷ 3 ∷ [])
unfolding remove_unused_functions compute_reachable visit visit_edges build_call_graph add_calls
    add_edge
kept_functions = (_, refl, refl)

remove_unused_functions_iff_example :
    (p : Program) × (remove_unused_functions program ≡ some p)
    × ((contains (names p.functions) 3 ≡ true)
        ↔ ((contains (names functions) 3 ≡ true) × Reaches functions 1 3))
remove_unused_functions_iff_example = remove_unused_functions_iff functions 1 3 entry

topological_order-none_example : topological_order 1000 (build_call_graph functions no_calls) ≡ none
topological_order-none_example = topological_order-none functions 1 2 1000 entry refl refl refl
