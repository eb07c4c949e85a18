-- ===== src/Ltac/Allocation/Simplify/Kept.antt =====
-- What removing a node leaves as it is: the vectors of neighbours and the registers, and so degrees.
use eddic.Prelude.{ℕ, ◌+◌, ◌≡◌, refl, ap, ◌∙◌, List, [], ◌∷◌}
use eddic.Ltac.Allocation.Graph.{
  Graph, neighbors, pseudo_of, remove_node, remove_edge, remove_edges,
}
use eddic.Ltac.Allocation.Simplify.{is_bound, binding_of, degree_loop, degree}

pub record Alike (g h : Graph) : Type 0 where
  pub vectors : h.adjacency_vectors ≡ g.adjacency_vectors
  pub registers : h.index_to_pseudo ≡ g.index_to_pseudo

pub Alike-refl : (g : Graph) → Alike g g
Alike-refl g = record { vectors = refl; registers = refl }

remove_edges-Alike : (js : List ℕ) (g h : Graph) (i : ℕ) → Alike g h → Alike g (remove_edges i js h)
unfolding remove_edges
remove_edges-Alike [] g h i k = k
remove_edges-Alike (j ∷ rest) g h i k =
    remove_edges-Alike rest g (remove_edge h i j) i
      (record { vectors = k.vectors; registers = k.registers })

pub remove_node-Alike : (g h : Graph) (i : ℕ) → Alike g h → Alike g (remove_node h i)
unfolding remove_node
remove_node-Alike g h i k =
    let left = remove_edges-Alike (neighbors h i) g h i k in
    record { vectors = left.vectors; registers = left.registers }

module _ (g h : Graph) (same : Alike g h) where
  pub pseudo_of-Alike : (r : ℕ) → pseudo_of h r ≡ pseudo_of g r
  unfolding pseudo_of
  pseudo_of-Alike r = rw (same.registers) refl

  pub neighbors-Alike : (r : ℕ) → neighbors h r ≡ neighbors g r
  unfolding neighbors
  neighbors-Alike r = rw (same.vectors) refl

  pub is_bound-Alike : (r : ℕ) → is_bound h r ≡ is_bound g r
  is_bound-Alike r = ap (λ p. p.bound) (pseudo_of-Alike r)

  pub binding_of-Alike : (r : ℕ) → binding_of h r ≡ binding_of g r
  binding_of-Alike r = ap (λ p. p.binding) (pseudo_of-Alike r)

  degree_loop-Alike :
      (order nodes bound : List ℕ) (count : ℕ)
      → degree_loop h order nodes bound count ≡ degree_loop g order nodes bound count
  unfolding degree_loop
  degree_loop-Alike order [] bound count = refl
  degree_loop-Alike order (n ∷ rest) bound count = simp (
    is_bound-Alike n,
    binding_of-Alike n,
    degree_loop-Alike order rest (binding_of g n ∷ bound) (count + 1),
    degree_loop-Alike order rest bound (count + 1),
    degree_loop-Alike order rest bound count,
  )

  pub degree-Alike : (r : ℕ) (order : List ℕ) → degree h r order ≡ degree g r order
  unfolding degree
  degree-Alike r order =
      ap (λ ns. degree_loop h order ns [] 0) (neighbors-Alike r)
      ∙ degree_loop-Alike order (neighbors g r) [] 0
