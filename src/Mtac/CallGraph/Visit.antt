-- ===== src/Mtac/CallGraph/Visit.antt =====
-- compute_reachable ends, with all that can be reached and no more.
use eddic.Prelude.{
  ℕ, zero, suc, ◌+◌, ◌≤◌, ◌<◌, ◌≡◌, refl, sym, ap, ◌∙◌, arith, Bool, true, false, Option, some,
  List, [], ◌∷◌, ◌==◌, ltb, length, contains, retain, Bool-cases, ==_iff, inl, inr,
}
use mathlib.Core.Bool.{not}
use mathlib.Core.Path.{subst}
use eddic.Mtac.CallGraph.{Edge, out_edges, visit_edges, visit}
use eddic.Mtac.CallGraph.Edges.{is_edge, is_target, is_target-out_edges}

-- how many of the nodes were not reached
abbrev pub unvisited : List ℕ → List ℕ → ℕ
unvisited reachable nodes = length (retain (λ x. not (contains reachable x)) nodes)

abbrev AreKept : List ℕ → List ℕ → Type 0
AreKept r r' = (x : ℕ) → contains r x ≡ true → contains r' x ≡ true

unvisited-AreKept : (nodes r r' : List ℕ) → AreKept r r' → unvisited r' nodes ≤ unvisited r nodes
unvisited-AreKept [] r r' kept = omega arith
unvisited-AreKept (x ∷ rest) r r' kept = ground (arith, kept x, unvisited-AreKept rest r r' kept)

unvisited-cons :
    (nodes r : List ℕ) (n : ℕ)
    → contains nodes n ≡ true
    → contains r n ≡ false
    → unvisited (n ∷ r) nodes < unvisited r nodes
unvisited-cons [] r n m new = cc
unvisited-cons (x ∷ rest) r n m new =
    let fewer = unvisited-AreKept rest r (n ∷ r) (λ x m. ground (arith, m)) in
    elim (Bool-cases (n == x)) [
      | inl same ↦
          let new' : contains r x ≡ false = sym (ap (contains r) ((==_iff n x).0 same)) ∙ new in
          let here : (x == n) ≡ true = ground arith in rw (here, new') (omega (arith, fewer))
      | inr other ↦
          let ih = unvisited-cons rest r n (rw other at m) new in
          let there : (x == n) ≡ false = ground arith in
          elim (Bool-cases (contains r x)) [
            | inl old ↦ rw (there, old) ih
            | inr new' ↦ rw (there, new') (omega (arith, ih))
          ]
    ]

-- What a visit that starts from `r` and ends with `r'` has done.
record IsGrown (edges : List Edge) (r r' : List ℕ) : Type 0 where
  kept : AreKept r r'
  closed :
      (x b : ℕ)
      → contains r' x ≡ true
      → contains r x ≡ false
      → is_edge edges x b ≡ true
      → contains r' b ≡ true

IsGrown-refl : (edges : List Edge) (r : List ℕ) → IsGrown edges r r
IsGrown-refl edges r = record { kept = λ x m. m; closed = λ x b m out e. cc }

IsGrown-trans :
    (edges : List Edge) (r s t : List ℕ) → IsGrown edges r s → IsGrown edges s t → IsGrown edges r t
IsGrown-trans edges r s t h k = record {
  kept = λ x m. k.kept x (h.kept x m);
  closed = λ x b m out e. elim (Bool-cases (contains s x)) [
    | inl early ↦ k.kept b (h.closed x b early out e)
    | inr late ↦ k.closed x b m late e
  ];
}

module _ (edges : List Edge) (nodes : List ℕ) (P : ℕ → Type 0) where
  abbrev AllP : List ℕ → Type 0
  AllP r = (x : ℕ) → contains r x ≡ true → P x

  -- a result of visit for a node, or of visit_edges for some edges
  record IsVisited (r : List ℕ) (result : Option (List ℕ)) (targets : ℕ → Bool) : Type 0 where
    reached : List ℕ
    returns : result ≡ some reached
    grown : IsGrown edges r reached
    all : AllP reached
    covers : (b : ℕ) → targets b ≡ true → contains reached b ≡ true

  -- visit, at a fuel that is enough
  abbrev Visits : (List ℕ → ℕ → Option (List ℕ)) → ℕ → Type 0
  Visits f fuel =
      (r : List ℕ) (n : ℕ)
      → unvisited r nodes < fuel
      → contains nodes n ≡ true
      → AllP r
      → P n
      → IsVisited r (f r n) (λ b. n == b)

  visit_edges-IsVisited :
      (es : List Edge) (f : List ℕ → ℕ → Option (List ℕ)) (fuel : ℕ) (r : List ℕ)
      → Visits f fuel
      → unvisited r nodes < fuel
      → ((b : ℕ) → is_target es b ≡ true → contains nodes b ≡ true)
      → ((b : ℕ) → is_target es b ≡ true → P b)
      → AllP r
      → IsVisited r (visit_edges f es r) (is_target es)
  unfolding visit_edges
  visit_edges-IsVisited [] f fuel r h l known fine all = record {
    reached = r;
    returns = refl;
    grown = IsGrown-refl edges r;
    all = all;
    covers = λ b m. cc;
  }
  visit_edges-IsVisited (e ∷ rest) f fuel r h l known fine all =
      let known' : (b : ℕ) → is_target rest b ≡ true → contains nodes b ≡ true =
        λ b m. known b (ground (arith, m)) in
      let fine' : (b : ℕ) → is_target rest b ≡ true → P b = λ b m. fine b (ground (arith, m)) in
      elim (Bool-cases (ltb 0 e.count)) [
        | inl counts ↦
            let here : is_target (e ∷ rest) e.target ≡ true = ground (arith, counts) in
            let v = h r e.target l (known e.target here) all (fine e.target here) in
            let fewer = unvisited-AreKept nodes r v.reached v.grown.kept in
            let w =
              visit_edges-IsVisited rest f fuel v.reached h (omega (arith, l, fewer)) known' fine'
                v.all in
            record {
              reached = w.reached;
              returns = rw (counts, v.returns) w.returns;
              grown = IsGrown-trans edges r v.reached w.reached v.grown w.grown;
              all = w.all;
              covers = λ b m. elim (Bool-cases (e.target == b)) [
                | inl same ↦ w.grown.kept b (v.covers b same)
                | inr other ↦ w.covers b (rw other at m)
              ];
            }
        | inr idle ↦
            let w = visit_edges-IsVisited rest f fuel r h l known' fine' all in
            record {
              reached = w.reached;
              returns = rw idle w.returns;
              grown = w.grown;
              all = w.all;
              covers = λ b m. w.covers b (ground (arith, m, idle));
            }
      ]

  module _ (known : (a b : ℕ) → is_edge edges a b ≡ true → contains nodes b ≡ true)
      (step : (a b : ℕ) → P a → is_edge edges a b ≡ true → P b) where
    visit-IsVisited : (fuel : ℕ) → Visits (λ r n. visit fuel edges r n) fuel
    unfolding visit
    visit-IsVisited zero r n l m all fine = absurd (omega (arith, l))
    visit-IsVisited (suc fuel) r n l m all fine = elim (Bool-cases (contains r n)) [
      | inl old ↦ record {
        reached = r;
        returns = rw old refl;
        grown = IsGrown-refl edges r;
        all = all;
        covers = λ b same. sym (ap (contains r) ((==_iff n b).0 same)) ∙ old;
      }
      | inr new ↦
          let out = is_target-out_edges edges n in
          let w =
            visit_edges-IsVisited (out_edges edges n) (λ r n. visit fuel edges r n) fuel (n ∷ r)
              (visit-IsVisited fuel) (omega (arith, l, unvisited-cons nodes r n m new))
              (λ b t. known n b (sym (out b) ∙ t)) (λ b t. step n b fine (sym (out b) ∙ t))
              (λ x k. elim (Bool-cases (x == n)) [
                | inl same ↦ subst P (sym ((==_iff x n).0 same)) fine
                | inr other ↦ all x (rw other at k)
              ]) in
          record {
            reached = w.reached;
            returns = rw new w.returns;
            grown = record {
              kept = λ x k. w.grown.kept x (ground (arith, k));
              closed = λ x b k o e. elim (Bool-cases (x == n)) [
                | inl same ↦
                    w.covers b
                      (out b ∙ (ap (λ x. is_edge edges x b) (sym ((==_iff x n).0 same)) ∙ e))
                | inr other ↦ w.grown.closed x b k (ground (arith, other, o)) e
              ];
            };
            all = w.all;
            covers = λ b same. w.grown.kept b (ground (arith, same));
          }
    ]

-- A visit of the entry, with nothing reached before.
pub record IsClosure (edges : List Edge) (entry : ℕ) (P : ℕ → Type 0) (result : Option (List ℕ))
    : Type 0 where
  pub reached : List ℕ
  pub returns : result ≡ some reached
  pub starts : contains reached entry ≡ true
  pub closed :
      (a b : ℕ) → contains reached a ≡ true → is_edge edges a b ≡ true → contains reached b ≡ true
  pub all : (x : ℕ) → contains reached x ≡ true → P x

abbrev targets : List Edge → List ℕ
targets [] = []
targets (e ∷ rest) = e.target ∷ targets rest

contains-targets :
    (edges : List Edge) (a b : ℕ) → is_edge edges a b ≡ true → contains (targets edges) b ≡ true
contains-targets [] a b e = cc
contains-targets (e ∷ rest) a b h = ground (arith, contains-targets rest a b, h)

length-retain : (p : ℕ → Bool) (xs : List ℕ) → length (retain p xs) ≤ length xs
length-retain p [] = omega arith
length-retain p (x ∷ xs) = ground (arith, length-retain p xs)

length-targets : (edges : List Edge) → length (targets edges) ≡ length edges
length-targets [] = refl
length-targets (e ∷ rest) = ap suc (length-targets rest)

pub visit-IsClosure :
    (edges : List Edge) (entry : ℕ) (P : ℕ → Type 0)
    → ((a b : ℕ) → P a → is_edge edges a b ≡ true → P b)
    → P entry
    → IsClosure edges entry P (visit (length edges + 2) edges [] entry)
visit-IsClosure edges entry P step start =
    let nodes = entry ∷ targets edges in
    let few = length-retain (λ x. not (contains [] x)) nodes in
    let v =
      visit-IsVisited edges nodes P (λ a b e. ground (arith, contains-targets edges a b e)) step
        (length edges + 2) [] entry (omega (arith, few, length-targets edges)) (ground arith)
        (λ x m. cc) start in
    record {
      reached = v.reached;
      returns = v.returns;
      starts = v.covers entry (ground arith);
      closed = λ a b m e. v.grown.closed a b m refl e;
      all = v.all;
    }
