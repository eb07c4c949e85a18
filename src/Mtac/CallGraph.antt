-- ===== src/Mtac/CallGraph.antt =====
-- src/mtac/call_graph.cpp and src/mtac/remove_unused_functions.cpp. A function is its mangled name, a
-- number. The edges stand in the order in which they were made; the out_edges of a node are those that
-- start at it. Of a function of the program its CALL quadruples are kept, as the functions called.
pub mod Edges
pub mod Visit
pub mod Unused
pub mod Order
use eddic.Prelude.{
  ℕ, zero, suc, ◌+◌, Bool, true, false, ◌&&◌, ◌||◌, Option, none, some, List, [], ◌∷◌, ◌==◌, ltb,
  length, contains, retain, if◌then◌else◌, ◌>>=◌,
}

pub record Edge : Type 0 where
  pub source : ℕ
  pub target : ℕ
  pub count : ℕ

pub record CallGraph : Type 0 where
  pub entry : Option ℕ
  pub edges : List Edge
  pub reachable : List ℕ

pub record Function : Type 0 where
  pub name : ℕ
  pub is_main : Bool
  pub calls : List ℕ

pub record Program : Type 0 where
  pub functions : List Function
  pub cg : CallGraph

-- edge, and the count of the edge that it finds or that is made
unfoldable pub add_edge : List Edge → ℕ → ℕ → List Edge
add_edge [] source target = record { source = source; target = target; count = 1 } ∷ []
add_edge (e ∷ rest) source target =
    let later = e ∷ add_edge rest source target in
    if e.source == source && e.target == target
    then record e { count = e.count + 1 } ∷ rest
    else later

abbrev pub out_edges : List Edge → ℕ → List Edge
out_edges edges node = retain (λ e. e.source == node) edges

-- the loop of the recursive function, where `visit` is its call for a target
unfoldable pub visit_edges : (List ℕ → ℕ → Option (List ℕ)) → List Edge → List ℕ → Option (List ℕ)
visit_edges visit [] reachable = some reachable
visit_edges visit (e ∷ rest) reachable = do
  reached ← if ltb 0 e.count then visit reachable e.target else some reachable
  visit_edges visit rest reached

-- compute_reachable of a node, on fuel
unfoldable pub visit : ℕ → List Edge → List ℕ → ℕ → Option (List ℕ)
unfolding visit_edges
visit zero edges reachable node = none
visit (suc fuel) edges reachable node =
    let more =
      visit_edges (λ r n. visit fuel edges r n) (out_edges edges node) (node ∷ reachable) in
    if contains reachable node then some reachable else more

-- Every call inside another adds a function, the entry or the target of an edge: that bounds the fuel.
unfoldable pub compute_reachable : CallGraph → Option CallGraph
unfolding visit
compute_reachable g = do
  entry ← g.entry
  reachable ← visit (length g.edges + 2) g.edges [] entry
  some (record g { reachable = reachable })

unfoldable pub add_calls : List ℕ → ℕ → List Edge → List Edge
unfolding add_edge
add_calls [] source edges = edges
add_calls (target ∷ rest) source edges = add_calls rest source (add_edge edges source target)

unfoldable pub build_call_graph : List Function → CallGraph → CallGraph
unfolding add_calls
build_call_graph [] g = g
build_call_graph (f ∷ rest) g = build_call_graph rest (record g {
  edges = add_calls f.calls f.name g.edges;
  entry = if f.is_main then some f.name else g.entry;
})

abbrev pub is_reachable : CallGraph → Function → Bool
is_reachable g f = contains g.reachable f.name

unfoldable pub remove_unused_functions : Program → Option Program
unfolding compute_reachable
remove_unused_functions program = do
  cg ← compute_reachable program.cg
  some (record {
    functions = retain (λ f. is_reachable cg f) program.functions;
    cg = record cg { reachable = [] };
  })

-- the loop of post_dfs_visit for a node, where `visit` is its call for a target
unfoldable pub visit_callees :
    (ℕ → List ℕ → Option (List ℕ)) → ℕ → List Edge → List ℕ → Option (List ℕ)
visit_callees visit node [] order = some order
visit_callees visit node (e ∷ rest) order = do
  before ← if e.target == node then some order else visit e.target order
  visit_callees visit node rest before

-- post_dfs_visit, on fuel; the order has its back first
unfoldable pub post_dfs_visit : ℕ → List Edge → ℕ → List ℕ → Option (List ℕ)
unfolding visit_callees
post_dfs_visit zero edges node order = none
post_dfs_visit (suc fuel) edges node order = do
  before ← visit_callees (λ n o. post_dfs_visit fuel edges n o) node (out_edges edges node) order
  some (node ∷ before)

unfoldable pub topological_order : ℕ → CallGraph → Option (List ℕ)
unfolding post_dfs_visit
topological_order fuel g = do entry ← g.entry; post_dfs_visit fuel g.edges entry []

abbrev pub no_calls : CallGraph
no_calls = record { entry = none; edges = []; reachable = [] }
