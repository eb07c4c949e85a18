-- ===== src/Mtac/CallGraph/Unused.antt =====
-- remove_unused_functions keeps the functions that main can call, itself or through others.
use eddic.Prelude.{
  ℕ, ◌≡◌, ◌↔◌, refl, sym, ap, ◌∙◌, arith, true, ◌&&◌, Option, some, List, [], ◌∷◌, ◌==◌, length,
  ◌+◌, contains, retain, Bool-cases, ==_iff, inl, inr,
}
use eddic.Mtac.CallGraph.{
  Edge, Function, Program, visit, compute_reachable, build_call_graph, remove_unused_functions,
  no_calls,
}
use eddic.Mtac.CallGraph.Edges.{is_edge, is_called, is_edge-build_call_graph}
use eddic.Mtac.CallGraph.Visit.{IsClosure, visit-IsClosure}

-- chains of calls
pub data Reaches (functions : List Function) : ℕ → ℕ → Type 0 where
  self : (a : ℕ) → Reaches functions a a
  call :
      (a b c : ℕ) → Reaches functions a b → is_called functions b c ≡ true → Reaches functions a c

abbrev pub names : List Function → List ℕ
names [] = []
names (f ∷ rest) = f.name ∷ names rest

contains-names :
    (fs : List Function) (reached : List ℕ) (x : ℕ)
    → contains (names (retain (λ f. contains reached f.name) fs)) x
      ≡ (contains reached x && contains (names fs) x)
contains-names [] reached x = ground arith
contains-names (f ∷ rest) reached x = elim (Bool-cases (x == f.name)) [
  | inl same ↦
      let e : contains reached x ≡ contains reached f.name =
        ap (contains reached) ((==_iff x f.name).0 same) in
      ground (arith, e, same, contains-names rest reached x)
  | inr other ↦ ground (arith, other, contains-names rest reached x)
]

module _ (functions : List Function) where
  edge-called :
      (a b : ℕ) → is_edge (build_call_graph functions no_calls).edges a b ≡ is_called functions a b
  edge-called a b = ground (arith, is_edge-build_call_graph functions no_calls a b)

  reached-Reaches :
      (edges : List Edge) (main x : ℕ) (result : Option (List ℕ)) (P : ℕ → Type 0)
      (closure : IsClosure edges main P result)
      → ((a b : ℕ) → is_edge edges a b ≡ is_called functions a b)
      → Reaches functions main x
      → contains closure.reached x ≡ true
  reached-Reaches edges main _ result P closure same (self _) = closure.starts
  reached-Reaches edges main _ result P closure same (call _ b c r e) =
      closure.closed b c (reached-Reaches edges main b result P closure same r) (same b c ∙ e)

  -- When the call graph of a program is built and its entry is `main`, remove_unused_functions ends,
  -- and keeps of the functions of the program those that a chain of calls from `main` reaches.
  pub remove_unused_functions_iff :
      (main f : ℕ)
      → (build_call_graph functions no_calls).entry ≡ some main
      → (p : Program) × (remove_unused_functions
            (record { functions = functions; cg = build_call_graph functions no_calls })
          ≡ some p)
        × ((contains (names p.functions) f ≡ true)
            ↔ ((contains (names functions) f ≡ true) × Reaches functions main f))
  unfolding remove_unused_functions compute_reachable
  remove_unused_functions_iff main f entry =
      let g = build_call_graph functions no_calls in
      let closure =
        visit-IsClosure g.edges main (Reaches functions main)
          (λ a b r e. call main a b r (sym (edge-called a b) ∙ e)) (self main) in
      let kept = contains-names functions closure.reached f in
      rw (entry, closure.returns)
        (
          record {
            functions = retain (λ f. contains closure.reached f.name) functions;
            cg = record { entry = some main; edges = g.edges; reachable = [] };
          },
          refl,
          (
            λ m.
                let both : (contains closure.reached f && contains (names functions) f) ≡ true =
                  sym kept ∙ m in
                (ground (arith, both), closure.all f (ground (arith, both))),
            λ (m, r).
                let reached =
                  reached-Reaches g.edges main f (visit (length g.edges + 2) g.edges [] main)
                    (Reaches functions main) closure edge-called r in
                kept ∙ ground (arith, m, reached),
          ),
        )
