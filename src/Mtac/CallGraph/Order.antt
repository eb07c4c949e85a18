-- ===== src/Mtac/CallGraph/Order.antt =====
-- topological_order where two functions call each other.
use eddic.Prelude.{
  ℕ, zero, suc, ◌≡◌, refl, ap, ◌∙◌, arith, true, false, Option, none, some, List, [], ◌∷◌, ◌==◌,
  if◌then◌else◌, Bool-cases, Option-cases, ==_iff, inl, inr,
}
use eddic.Mtac.CallGraph.{
  Edge, Function, out_edges, visit_callees, post_dfs_visit, topological_order, build_call_graph,
  no_calls,
}
use eddic.Mtac.CallGraph.Edges.{
  is_edge, is_called, is_target, is_target-out_edges, is_edge-build_call_graph,
}

visit_callees-none :
    (es : List Edge) (visit : ℕ → List ℕ → Option (List ℕ)) (node b : ℕ) (order : List ℕ)
    → is_target es b ≡ true
    → (b == node) ≡ false
    → ((o : List ℕ) → visit b o ≡ none)
    → visit_callees visit node es order ≡ none
unfolding visit_callees
visit_callees-none [] visit node b order t apart fails = cc
visit_callees-none (e ∷ rest) visit node b order t apart fails = elim (Bool-cases (e.target == b)) [
  | inl same ↦
      let at : e.target ≡ b = (==_iff e.target b).0 same in
      let other : (e.target == node) ≡ false = ground (arith, at, apart) in
      let first : visit e.target order ≡ none = ap (λ n. visit n order) at ∙ fails order in
      rw (other, first) refl
  | inr other ↦
      let later =
        λ (o : List ℕ). visit_callees-none rest visit node b o (rw other at t) apart fails in
      elim (Option-cases (if e.target == node then some order else visit e.target order)) [
        | inl ends ↦ rw ends refl
        | inr (o, goes) ↦ rw goes (later o)
      ]
]

module _ (edges : List Edge) (a b : ℕ) (apart : (a == b) ≡ false) (to : is_edge edges a b ≡ true)
    (fro : is_edge edges b a ≡ true) where
  endless :
      (fuel : ℕ) (order : List ℕ)
      → (post_dfs_visit fuel edges a order ≡ none) × (post_dfs_visit fuel edges b order ≡ none)
  unfolding post_dfs_visit
  endless zero order = (refl, refl)
  endless (suc fuel) order =
      let visit = λ (n : ℕ) (o : List ℕ). post_dfs_visit fuel edges n o in
      (
        rw
            (visit_callees-none (out_edges edges a) visit a b order
              (is_target-out_edges edges a b ∙ to) (ground (arith, apart))
              (λ o. (endless fuel o).1))
            refl,
        rw
            (visit_callees-none (out_edges edges b) visit b a order
              (is_target-out_edges edges b a ∙ fro) apart (λ o. (endless fuel o).0))
            refl,
      )

-- topological_order ends within no fuel if main and another function call each other: post_dfs_visit
-- follows every edge but those from a function to itself.
pub topological_order-none :
    (functions : List Function) (main f fuel : ℕ)
    → (build_call_graph functions no_calls).entry ≡ some main
    → (main == f) ≡ false
    → is_called functions main f ≡ true
    → is_called functions f main ≡ true
    → topological_order fuel (build_call_graph functions no_calls) ≡ none
unfolding topological_order
topological_order-none functions main f fuel entry apart to fro =
    let g = build_call_graph functions no_calls in
    rw entry
      (endless g.edges main f apart
        (is_edge-build_call_graph functions no_calls main f ∙ ground (arith, to))
        (is_edge-build_call_graph functions no_calls f main ∙ ground (arith, fro)) fuel []).0
