-- ===== src/Ltac/Allocation/Graph/Registers.antt =====
-- The registers of a graph: those that were gathered, each under its index.
use eddic.Prelude.{
  ℕ, ◌≡◌, refl, ◌∙◌, Bool, true, false, List, [], ◌∷◌, ◌==◌, length, ltb, if◌then◌else◌, Bool-cases,
  inl, inr,
}
use eddic.Ltac.Allocation.Graph.{
  Graph, size, build_graph, add_edge, connect_to, connect_pairs, connect_live,
  build_adjacency_vectors, build_interference_graph,
}

connect_to-registers :
    (rest : List ℕ) (g : Graph) (it : ℕ)
    → (connect_to g it rest).index_to_pseudo ≡ g.index_to_pseudo
unfolding connect_to add_edge
connect_to-registers [] g it = refl
connect_to-registers (next ∷ rest) g it = connect_to-registers rest (add_edge g it next) it

connect_pairs-registers :
    (live : List ℕ) (g : Graph) → (connect_pairs g live).index_to_pseudo ≡ g.index_to_pseudo
unfolding connect_pairs
connect_pairs-registers [] g = refl
connect_pairs-registers (it ∷ rest) g =
    connect_pairs-registers rest (connect_to g it rest) ∙ connect_to-registers rest g it

if-registers :
    (b : Bool) (g h : Graph)
    → h.index_to_pseudo ≡ g.index_to_pseudo
    → (if b then h else g).index_to_pseudo ≡ g.index_to_pseudo
if-registers true g h e = e
if-registers false g h e = refl

connect_live-registers :
    (lives : List (List ℕ)) (g : Graph) → (connect_live g lives).index_to_pseudo ≡ g.index_to_pseudo
unfolding connect_live
connect_live-registers [] g = refl
connect_live-registers (live ∷ rest) g =
    connect_live-registers rest (if ltb 1 (length live) then connect_pairs g live else g)
    ∙ if-registers (ltb 1 (length live)) g (connect_pairs g live) (connect_pairs-registers live g)

pub built-registers :
    (g : Graph) (lives : List (List ℕ))
    → (build_interference_graph g lives).index_to_pseudo ≡ g.index_to_pseudo
unfolding build_interference_graph build_graph build_adjacency_vectors
built-registers g lives = elim (Bool-cases (size g == 0)) [
  | inl empty ↦ rw empty refl
  | inr full ↦ rw full (connect_live-registers lives (build_graph g))
]
