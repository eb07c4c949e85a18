-- ===== src/Ltac/Allocation/Graph/Live.antt =====
-- The graph that is built joins two registers exactly if they are live together.
use eddic.Prelude.{
  ℕ, ◌<◌, ◌≡◌, sym, ap, ◌∙◌, arith, true, false, ◌&&◌, List, [], ◌∷◌, ◌==◌, get_or, contains, ltb,
  Bool-cases, inl, inr,
}
use mathlib.Core.Bool.{not}
use eddic.Ltac.Allocation.Graph.{
  Graph, size, neighbors, build_graph, connect_live, build_interference_graph, connected,
}
use eddic.Ltac.Allocation.Graph.Pairs.{
  contains-neighbors, are_live, are_live_once, AllBelow, AreBelow, connected-connect_live,
  build_graph-IsReady, connect_live-IsReady, connected-build_graph,
}

below : (k : ℕ) (live : List ℕ) (n : ℕ) → AllBelow k live → contains live n ≡ true → n < k
below k [] n h c = cc
below k (x ∷ rest) n h c = elim (Bool-cases (n == x)) [
  | inl same ↦ ground arith
  | inr other ↦ below k rest n h.1 (rw other at c)
]

pub live_below :
    (k : ℕ) (lives : List (List ℕ)) (r n : ℕ)
    → AreBelow k lives
    → are_live_once lives r n ≡ true
    → (r < k) × (n < k)
live_below k [] r n h c = cc
live_below k (live ∷ rest) r n h c = elim (Bool-cases (are_live live r n)) [
  | inl here ↦ (below k live r h.0 (ground arith), below k live n h.0 (ground arith))
  | inr other ↦ live_below k rest r n h.1 (rw other at c)
]

neighbors-build_graph :
    (g : Graph) (r n : ℕ)
    → g.adjacency_vectors ≡ []
    → contains (neighbors (build_graph g) r) n ≡ false
unfolding neighbors build_graph
neighbors-build_graph g r n fresh = ap (λ v. contains (get_or v r []) n) fresh

not_live :
    (k : ℕ) (lives : List (List ℕ)) (r n : ℕ)
    → AreBelow k lives
    → (ltb r k && ltb n k) ≡ false
    → are_live_once lives r n ≡ false
not_live k lives r n h out = elim (Bool-cases (are_live_once lives r n)) [
  | inl live ↦ let (hr, hn) = live_below k lives r n h live in absurd (ground arith)
  | inr dead ↦ dead
]

connected-full :
    (g : Graph) (lives : List (List ℕ)) (r n : ℕ)
    → AreBelow (size g) lives
    → (ltb r (size g)
        && (ltb n (size g) && (not (r == n) && connected (connect_live (build_graph g) lives) r n)))
      ≡ (not (r == n) && are_live_once lives r n)
connected-full g lives r n hl = elim (Bool-cases (ltb r (size g) && ltb n (size g))) [
  | inl inside ↦ elim (Bool-cases (r == n)) [
    | inl same ↦ rw same (ground arith)
    | inr apart ↦
        let live =
          connected-connect_live (build_graph g) (size g) lives r n (build_graph-IsReady g) hl
            (ground arith) apart in
        ground (arith, live, connected-build_graph g r n)
  ]
  | inr outside ↦ ground (arith, not_live (size g) lives r n hl outside)
]

-- Two nodes are neighbours in the graph that is built exactly if they are two and live together after
-- some statement.
pub contains-neighbors_built :
    (g : Graph) (lives : List (List ℕ)) (r n : ℕ)
    → g.adjacency_vectors ≡ []
    → AreBelow (size g) lives
    → contains (neighbors (build_interference_graph g lives) r) n
      ≡ (not (r == n) && are_live_once lives r n)
unfolding build_interference_graph connected
contains-neighbors_built g lives r n fresh hl = elim (Bool-cases (size g == 0)) [
  | inl empty ↦ rw empty (
      neighbors-build_graph g r n fresh
      ∙ sym (
          ap (λ b. not (r == n) && b) (not_live (size g) lives r n hl (ground arith))
          ∙ ground arith))
  | inr some_left ↦ rw some_left (
      contains-neighbors (connect_live (build_graph g) lives) r n
      ∙ rw ((connect_live-IsReady (build_graph g) (size g) lives (build_graph-IsReady g)).counted)
          (connected-full g lives r n hl))
]
