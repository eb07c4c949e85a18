-- ===== src/Ltac/Allocation/Graph.antt =====
-- include/ltac/interference_graph.hpp and src/ltac/bit_matrix.cpp, and PseudoRegister of
-- include/ltac/PseudoRegister.hpp, which is told from another by its number alone. A vector is read
-- at indices below its size only.
pub mod Matrix
pub mod Pairs
pub mod Live
pub mod Registers
pub mod Gathered
use eddic.Prelude.{
  ℕ, zero, suc, ◌+◌, ◌-◌, ◌*◌, Bool, true, false, ◌&&◌, Option, none, some, List, [], ◌∷◌, ◌++◌,
  ◌==◌, if◌then◌else◌, length, get_or, set, ltb,
}
use mathlib.Core.Bool.{not}

pub record PseudoRegister : Type 0 where
  pub reg : ℕ
  pub bound : Bool
  pub binding : ℕ

-- The bits by their position, i * size + j.
pub record BitMatrix : Type 0 where
  pub size : ℕ
  pub bitset : List Bool

abbrev clear_bits : ℕ → List Bool
clear_bits zero = []
clear_bits (suc n) = false ∷ clear_bits n

unfoldable pub new_matrix : ℕ → BitMatrix
new_matrix size = record { size = size; bitset = clear_bits (size * size) }

unfoldable pub set_bit : BitMatrix → ℕ → ℕ → BitMatrix
set_bit m i j = record m { bitset = set m.bitset (i * m.size + j) true }

unfoldable pub clear_bit : BitMatrix → ℕ → ℕ → BitMatrix
clear_bit m i j = record m { bitset = set m.bitset (i * m.size + j) false }

unfoldable pub is_set : BitMatrix → ℕ → ℕ → Bool
is_set m i j = get_or m.bitset (i * m.size + j) false

-- `m_size` is the length of `index_to_pseudo`; `pseudo_to_index` is an association list by `reg`.
pub record Graph : Type 0 where
  pub matrix : BitMatrix
  pub adjacency_vectors : List (List ℕ)
  pub degrees : List ℕ
  pub spill_costs : List ℕ
  pub index_to_pseudo : List PseudoRegister
  pub pseudo_to_index : List (ℕ × ℕ)

unfoldable pub size : Graph → ℕ
size g = length g.index_to_pseudo

unfoldable pub find_index : List (ℕ × ℕ) → ℕ → Option ℕ
find_index [] r = none
find_index ((k, i) ∷ rest) r = if k == r then some i else find_index rest r

-- `convert` of a register; operator[] gives 0 for one that was not gathered
unfoldable pub index_of : Graph → PseudoRegister → ℕ
unfolding find_index
index_of g p = elim (find_index g.pseudo_to_index p.reg) [ none ↦ 0 | some i ↦ i ]

abbrev pub unnamed : PseudoRegister
unnamed = record { reg = 0; bound = false; binding = 0 }

-- `convert` of an index
unfoldable pub pseudo_of : Graph → ℕ → PseudoRegister
pseudo_of g i = get_or g.index_to_pseudo i unnamed

unfoldable pub gather : Graph → PseudoRegister → Graph
unfolding find_index
gather g p = elim (find_index g.pseudo_to_index p.reg) [
  | some i ↦ g
  | none ↦ record g {
    pseudo_to_index = (p.reg, length g.index_to_pseudo) ∷ g.pseudo_to_index;
    index_to_pseudo = g.index_to_pseudo ++ p ∷ [];
  }
]

-- the calls of gather for the registers of a function, one after the other
unfoldable pub gather_all : List PseudoRegister → Graph → Graph
unfolding gather
gather_all [] g = g
gather_all (p ∷ rest) g = gather_all rest (gather g p)

-- a graph when it is declared
abbrev pub no_graph : Graph
no_graph = record {
  matrix = record { size = 0; bitset = [] };
  adjacency_vectors = [];
  degrees = [];
  spill_costs = [];
  index_to_pseudo = [];
  pseudo_to_index = [];
}

abbrev zeros : ℕ → List ℕ
zeros zero = []
zeros (suc n) = 0 ∷ zeros n

unfoldable pub build_graph : Graph → Graph
unfolding size new_matrix
build_graph g = record g {
  degrees = zeros (size g);
  spill_costs = zeros (size g);
  matrix = new_matrix (size g);
}

unfoldable pub add_edge : Graph → ℕ → ℕ → Graph
unfolding set_bit
add_edge g i j = record g { matrix = set_bit (set_bit g.matrix i j) j i }

unfoldable pub connected : Graph → ℕ → ℕ → Bool
unfolding is_set
connected g i j = is_set g.matrix i j

unfoldable pub neighbors : Graph → ℕ → List ℕ
neighbors g i = get_or g.adjacency_vectors i []

unfoldable pub spill_cost : Graph → ℕ → ℕ
spill_cost g i = get_or g.spill_costs i 0

-- --degree, of a std::size_t
abbrev decrement : ℕ → ℕ
decrement degree = if degree == 0 then 18446744073709551615 else degree - 1

-- one round of remove_node
unfoldable pub remove_edge : Graph → ℕ → ℕ → Graph
unfolding clear_bit
remove_edge g i j = record g {
  matrix = clear_bit (clear_bit g.matrix i j) j i;
  degrees = set g.degrees j (decrement (get_or g.degrees j 0));
}

unfoldable pub remove_edges : ℕ → List ℕ → Graph → Graph
unfolding remove_edge
remove_edges i [] g = g
remove_edges i (j ∷ rest) g = remove_edges i rest (remove_edge g i j)

unfoldable pub remove_node : Graph → ℕ → Graph
unfolding remove_edges neighbors
remove_node g i =
    let g' = remove_edges i (neighbors g i) g in record g' { degrees = set g'.degrees i 0 }

-- for (j = from; rounds more; ++j)
unfoldable pub adjacent : BitMatrix → ℕ → ℕ → ℕ → List ℕ
unfolding is_set
adjacent m i zero j = []
adjacent m i (suc rounds) j =
    let rest = adjacent m i rounds (j + 1) in
    if not (i == j) && is_set m i j then j ∷ rest else rest

unfoldable pub adjacency : BitMatrix → ℕ → ℕ → ℕ → List (List ℕ)
unfolding adjacent
adjacency m size zero i = []
adjacency m size (suc rounds) i = adjacent m i size 0 ∷ adjacency m size rounds (i + 1)

abbrev lengths : List (List ℕ) → List ℕ
lengths [] = []
lengths (v ∷ vs) = length v ∷ lengths vs

unfoldable pub build_adjacency_vectors : Graph → Graph
unfolding adjacency size
build_adjacency_vectors g =
    let vectors = adjacency g.matrix (size g) (size g) 0 in
    record g { adjacency_vectors = vectors; degrees = lengths vectors }

-- The loops of build_interference_graph over one set of live registers, `it` and `next`.
unfoldable pub connect_to : Graph → ℕ → List ℕ → Graph
connect_to g it [] = g
connect_to g it (next ∷ rest) = connect_to (add_edge g it next) it rest

unfoldable pub connect_pairs : Graph → List ℕ → Graph
unfolding connect_to
connect_pairs g [] = g
connect_pairs g (it ∷ rest) = connect_pairs (connect_to g it rest) rest

-- The sets of the statements, one after the other: the results of the live register problem, as
-- indices. A set of one has no pair.
unfoldable pub connect_live : Graph → List (List ℕ) → Graph
unfolding connect_pairs
connect_live g [] = g
connect_live g (live ∷ rest) =
    connect_live (if ltb 1 (length live) then connect_pairs g live else g) rest

-- build_interference_graph, after the registers were gathered
unfoldable pub build_interference_graph : Graph → List (List ℕ) → Graph
unfolding build_graph connect_live build_adjacency_vectors
build_interference_graph g lives =
    let built = build_graph g in
    let filled = build_adjacency_vectors (connect_live built lives) in
    if size g == 0 then built else filled
