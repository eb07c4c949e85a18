-- ===== src/Mtac/CallGraph/Edges.antt =====
-- The edges of the graph that is built are the calls of the program.
use eddic.Prelude.{
  ℕ, ◌≡◌, refl, arith, Bool, false, ◌&&◌, ◌||◌, some, List, [], ◌∷◌, ◌==◌, ltb, contains,
  if◌then◌else◌,
}
use eddic.Mtac.CallGraph.{
  Edge, CallGraph, Function, add_edge, out_edges, add_calls, build_call_graph,
}

-- whether some edge from `a` to `b` counts a call
abbrev pub is_edge : List Edge → ℕ → ℕ → Bool
is_edge [] a b = false
is_edge (e ∷ rest) a b = (e.source == a && (e.target == b && ltb 0 e.count)) || is_edge rest a b

-- whether some edge counts a call of `b`
abbrev pub is_target : List Edge → ℕ → Bool
is_target [] b = false
is_target (e ∷ rest) b = (e.target == b && ltb 0 e.count) || is_target rest b

-- whether a function of that name calls another
abbrev pub is_called : List Function → ℕ → ℕ → Bool
is_called [] a b = false
is_called (f ∷ rest) a b = (f.name == a && contains f.calls b) || is_called rest a b

is_edge-add_edge :
    (es : List Edge) (s t a b : ℕ)
    → is_edge (add_edge es s t) a b ≡ ((s == a && t == b) || is_edge es a b)
unfolding add_edge
is_edge-add_edge [] s t a b = ground arith
is_edge-add_edge (e ∷ rest) s t a b = let ih = is_edge-add_edge rest s t a b in ground (arith, ih)

is_edge-add_calls :
    (calls : List ℕ) (s : ℕ) (es : List Edge) (a b : ℕ)
    → is_edge (add_calls calls s es) a b ≡ ((s == a && contains calls b) || is_edge es a b)
unfolding add_calls
is_edge-add_calls [] s es a b = ground arith
is_edge-add_calls (t ∷ rest) s es a b =
    let ih = is_edge-add_calls rest s (add_edge es s t) a b in
    ground (arith, ih, is_edge-add_edge es s t a b)

pub is_edge-build_call_graph :
    (fs : List Function) (g : CallGraph) (a b : ℕ)
    → is_edge (build_call_graph fs g).edges a b ≡ (is_called fs a b || is_edge g.edges a b)
unfolding build_call_graph
is_edge-build_call_graph [] g a b = refl
is_edge-build_call_graph (f ∷ rest) g a b =
    let ih =
      is_edge-build_call_graph rest
        (record g {
          edges = add_calls f.calls f.name g.edges;
          entry = if f.is_main then some f.name else g.entry;
        })
        a b in
    ground (arith, ih, is_edge-add_calls f.calls f.name g.edges a b)

pub is_target-out_edges : (es : List Edge) (n b : ℕ) → is_target (out_edges es n) b ≡ is_edge es n b
is_target-out_edges [] n b = refl
is_target-out_edges (e ∷ rest) n b = ground (arith, is_target-out_edges rest n b)
