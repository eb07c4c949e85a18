-- ===== src/Ltac/Allocation/Graph/Pairs.antt =====
-- The edges that the sets of live registers add to a graph.
use eddic.Prelude.{
  ℕ, zero, suc, ◌+◌, ◌*◌, ◌<◌, ◌≡◌, refl, ap, ◌∙◌, arith, Bool, false, ◌&&◌, ◌||◌, List, [], ◌∷◌,
  ◌==◌, length, get_or, contains, ltb, Bool-cases, inl, inr,
}
use mathlib.Core.Bool.{not}
use eddic.Ltac.Allocation.Graph.{
  Graph, clear_bits, set_bit, is_set, size, neighbors, build_graph, add_edge, connect_to,
  connect_pairs, connect_live, build_adjacency_vectors, connected,
}
use eddic.Ltac.Allocation.Graph.Matrix.{
  IsSized, set_bit-IsSized, is_set-set_bit, contains-adjacent, get_or-adjacency,
}

-- The neighbours of a graph whose vectors were just built.
pub contains-neighbors :
    (g : Graph) (r n : ℕ)
    → contains (neighbors (build_adjacency_vectors g) r) n
      ≡ (ltb r (size g) && (ltb n (size g) && (not (r == n) && is_set g.matrix r n)))
unfolding neighbors build_adjacency_vectors
contains-neighbors g r n =
    rw (get_or-adjacency g.matrix (size g) (size g) 0 r)
      (ground (arith, contains-adjacent g.matrix r (size g) 0 n))

-- whether the two are live together
abbrev pub are_live : List ℕ → ℕ → ℕ → Bool
are_live live r n = contains live r && contains live n

abbrev pub are_live_once : List (List ℕ) → ℕ → ℕ → Bool
are_live_once [] r n = false
are_live_once (live ∷ rest) r n = are_live live r n || are_live_once rest r n

abbrev pub AllBelow : ℕ → List ℕ → Type 0
AllBelow k [] = Unit
AllBelow k (x ∷ xs) = (x < k) × AllBelow k xs

abbrev pub AreBelow : ℕ → List (List ℕ) → Type 0
AreBelow k [] = Unit
AreBelow k (live ∷ rest) = AllBelow k live × AreBelow k rest

pub record IsReady (g : Graph) (k : ℕ) : Type 0 where
  pub sized : IsSized g.matrix
  pub square : g.matrix.size ≡ k
  pub counted : size g ≡ k

connected-add_edge :
    (g : Graph) (k i j r n : ℕ)
    → IsReady g k
    → i < k
    → j < k
    → n < k
    → connected (add_edge g i j) r n
      ≡ ((r == j && n == i) || ((r == i && n == j) || connected g r n))
unfolding add_edge connected
connected-add_edge g k i j r n ready hi hj hn =
    let m = g.matrix in
    let i' : i < m.size = omega (arith, ready.square) in
    let j' : j < m.size = omega (arith, ready.square) in
    let n' : n < m.size = omega (arith, ready.square) in
    is_set-set_bit (set_bit m i j) j i r n (set_bit-IsSized m i j ready.sized) j' i' n'
    ∙ ap (λ b. (r == j && n == i) || b) (is_set-set_bit m i j r n ready.sized i' j' n')

add_edge-IsReady : (g : Graph) (k i j : ℕ) → IsReady g k → IsReady (add_edge g i j) k
unfolding add_edge size
add_edge-IsReady g k i j ready = record {
  sized = set_bit-IsSized (set_bit g.matrix i j) j i (set_bit-IsSized g.matrix i j ready.sized);
  square = ready.square;
  counted = ready.counted;
}

connect_to-IsReady :
    (g : Graph) (k it : ℕ) (live : List ℕ) → IsReady g k → IsReady (connect_to g it live) k
unfolding connect_to
connect_to-IsReady g k it [] ready = ready
connect_to-IsReady g k it (x ∷ rest) ready =
    connect_to-IsReady (add_edge g it x) k it rest (add_edge-IsReady g k it x ready)

connect_pairs-IsReady :
    (g : Graph) (k : ℕ) (live : List ℕ) → IsReady g k → IsReady (connect_pairs g live) k
unfolding connect_pairs
connect_pairs-IsReady g k [] ready = ready
connect_pairs-IsReady g k (it ∷ rest) ready =
    connect_pairs-IsReady (connect_to g it rest) k rest (connect_to-IsReady g k it rest ready)

connected-connect_to :
    (g : Graph) (k it : ℕ) (live : List ℕ) (r n : ℕ)
    → IsReady g k
    → it < k
    → AllBelow k live
    → n < k
    → connected (connect_to g it live) r n
      ≡ (((r == it && contains live n) || (n == it && contains live r)) || connected g r n)
unfolding connect_to
connected-connect_to g k it [] r n ready hi hl hn = ground arith
connected-connect_to g k it (x ∷ rest) r n ready hi hl hn = ground (
  arith,
  connected-connect_to (add_edge g it x) k it rest r n (add_edge-IsReady g k it x ready) hi hl.1 hn,
  connected-add_edge g k it x r n ready hi hl.0 hn,
)

connected-connect_pairs :
    (g : Graph) (k : ℕ) (live : List ℕ) (r n : ℕ)
    → IsReady g k
    → AllBelow k live
    → n < k
    → (r == n) ≡ false
    → connected (connect_pairs g live) r n ≡ (are_live live r n || connected g r n)
unfolding connect_pairs
connected-connect_pairs g k [] r n ready hl hn apart = refl
connected-connect_pairs g k (it ∷ rest) r n ready hl hn apart = ground (
  arith,
  connected-connect_pairs (connect_to g it rest) k rest r n (connect_to-IsReady g k it rest ready)
      hl.1 hn apart,
  connected-connect_to g k it rest r n ready hl.0 hl.1 hn,
)

-- A set of one joins nothing.
are_live-short :
    (live : List ℕ) (r n : ℕ)
    → ltb 1 (length live) ≡ false
    → (r == n) ≡ false
    → are_live live r n ≡ false
are_live-short [] r n h apart = refl
are_live-short (x ∷ []) r n h apart = ground arith
are_live-short (x ∷ y ∷ rest) r n h apart = absurd (ground arith)

pub connect_live-IsReady :
    (g : Graph) (k : ℕ) (lives : List (List ℕ)) → IsReady g k → IsReady (connect_live g lives) k
unfolding connect_live
connect_live-IsReady g k [] ready = ready
connect_live-IsReady g k (live ∷ rest) ready = elim (Bool-cases (ltb 1 (length live))) [
  | inl long ↦
      rw long
        (connect_live-IsReady (connect_pairs g live) k rest (connect_pairs-IsReady g k live ready))
  | inr short ↦ rw short (connect_live-IsReady g k rest ready)
]

pub connected-connect_live :
    (g : Graph) (k : ℕ) (lives : List (List ℕ)) (r n : ℕ)
    → IsReady g k
    → AreBelow k lives
    → n < k
    → (r == n) ≡ false
    → connected (connect_live g lives) r n ≡ (are_live_once lives r n || connected g r n)
unfolding connect_live
connected-connect_live g k [] r n ready hl hn apart = refl
connected-connect_live g k (live ∷ rest) r n ready hl hn apart =
    elim (Bool-cases (ltb 1 (length live))) [
      | inl long ↦ rw long (
          ground (
            arith,
            connected-connect_live (connect_pairs g live) k rest r n
                (connect_pairs-IsReady g k live ready) hl.1 hn apart,
            connected-connect_pairs g k live r n ready hl.0 hn apart,
          ))
      | inr short ↦ rw short (
          ground (
            arith,
            connected-connect_live g k rest r n ready hl.1 hn apart,
            are_live-short live r n short apart,
          ))
    ]

length-clear_bits : (n : ℕ) → length (clear_bits n) ≡ n
length-clear_bits zero = refl
length-clear_bits (suc n) = ap suc (length-clear_bits n)

get_or-clear_bits : (n i : ℕ) → get_or (clear_bits n) i false ≡ false
get_or-clear_bits zero i = refl
get_or-clear_bits (suc n) zero = refl
get_or-clear_bits (suc n) (suc i) = get_or-clear_bits n i

pub build_graph-IsReady : (g : Graph) → IsReady (build_graph g) (size g)
unfolding build_graph size
build_graph-IsReady g = record {
  sized = length-clear_bits (size g * size g);
  square = refl;
  counted = refl;
}

pub connected-build_graph : (g : Graph) (r n : ℕ) → connected (build_graph g) r n ≡ false
unfolding connected build_graph
connected-build_graph g r n = get_or-clear_bits (size g * size g) (r * size g + n)
