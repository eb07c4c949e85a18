-- ===== src/Ltac/Allocation/Simplify.antt =====
-- src/ltac/register_allocator.cpp: degree, spill_heuristic and simplify. `double` is a parameter: the
-- quotient of two std::size_t, and `<`. The list `order` and the
-- vector `spilled` are kept with their backs first.
pub mod Kept
pub mod Order
pub mod Loop
use eddic.Prelude.{
  ℕ, zero, suc, ◌+◌, Bool, true, false, ◌&&◌, Option, none, some, List, [], ◌∷◌, ◌==◌, ltb,
  if◌then◌else◌, length, contains, retain,
}
use mathlib.Core.Bool.{not}
use eddic.Ltac.Allocation.Graph.{Graph, size, pseudo_of, neighbors, spill_cost, remove_node}

pub record Doubles (D : Type 0) : Type 0 where
  pub quotient : ℕ → ℕ → D
  pub less : D → D → Bool

abbrev pub is_bound : Graph → ℕ → Bool
is_bound g r = (pseudo_of g r).bound

abbrev pub binding_of : Graph → ℕ → ℕ
binding_of g r = (pseudo_of g r).binding

-- degree: the loop over the neighbours, with `count` and the set `bound`
unfoldable pub degree_loop : Graph → List ℕ → List ℕ → List ℕ → ℕ → ℕ
degree_loop g order [] bound count = count
degree_loop g order (n ∷ rest) bound count =
    let queued = degree_loop g order rest (binding_of g n ∷ bound) (count + 1) in
    let free = degree_loop g order rest bound (count + 1) in
    let skipped = degree_loop g order rest bound count in
    if not (contains order n)
    then if is_bound g n then queued else free
    else if is_bound g n && not (contains bound (binding_of g n))
    then queued
    else skipped

unfoldable pub degree : Graph → ℕ → List ℕ → ℕ
unfolding degree_loop
degree g candidate order = degree_loop g order (neighbors g candidate) [] 0

-- for (r = from; rounds more; ++r): the numbers of the nodes
unfoldable pub numbers : ℕ → ℕ → List ℕ
numbers zero r = []
numbers (suc rounds) r = r ∷ numbers rounds (r + 1)

-- The first loop of simplify: bound nodes are queued and removed, the others are left in `n`.
unfoldable pub queue_bound : List ℕ → Graph → List ℕ → Graph × List ℕ
queue_bound [] g order = (g, order)
queue_bound (r ∷ rest) g order =
    let queued = queue_bound rest (remove_node g r) (r ∷ order) in
    let passed = queue_bound rest g order in if is_bound g r then queued else passed

-- std::set::erase
unfoldable pub erase_node : ℕ → List ℕ → List ℕ
erase_node a xs = retain (λ x. not (x == a)) xs

-- the first candidate of low degree
unfoldable pub find_candidate : ℕ → Graph → List ℕ → List ℕ → Option ℕ
find_candidate k g order [] = none
find_candidate k g order (c ∷ rest) =
    let later = find_candidate k g order rest in if ltb (degree g c order) k then some c else later

abbrev pub found_or : Option ℕ → ℕ → ℕ
found_or none node = node
found_or (some c) node = c

abbrev pub is_none : Option ℕ → Bool
is_none none = true
is_none (some c) = false

-- push_back
abbrev pub push_if : Bool → ℕ → List ℕ → List ℕ
push_if true x xs = x ∷ xs
push_if false x xs = xs

module _ {D : Type 0} (d : Doubles D) where
  unfoldable pub spill_heuristic : Graph → ℕ → List ℕ → D
  spill_heuristic g reg order = d.quotient (spill_cost g reg) (degree g reg order)

  -- the loop for the least cost
  unfoldable pub cheapest : Graph → List ℕ → List ℕ → ℕ → D → ℕ
  unfolding spill_heuristic
  cheapest g order [] node min_cost = node
  cheapest g order (c ∷ rest) node min_cost =
      let cost = spill_heuristic g c order in
      let better = cheapest g order rest c cost in
      let same = cheapest g order rest node min_cost in
      if not (is_bound g c) && d.less cost min_cost then better else same

  -- while(!n.empty()), on as many rounds as `n` has nodes: the graph, `spilled`, `order` and `n`
  unfoldable pub simplify_loop :
      ℕ → ℕ → Graph → List ℕ → List ℕ → List ℕ → Graph × List ℕ × List ℕ × List ℕ
  simplify_loop zero k g spilled order n = (g, spilled, order, n)
  simplify_loop (suc fuel) k g spilled order [] = (g, spilled, order, [])
  simplify_loop (suc fuel) k g spilled order (first ∷ rest) =
      let candidate = find_candidate k g order (first ∷ rest) in
      let cost = spill_heuristic g first order in
      let node = found_or candidate (cheapest g order (first ∷ rest) first cost) in
      simplify_loop fuel k (remove_node g node) (push_if (is_none candidate) node spilled)
        (push_if (not (is_none candidate)) node order) (erase_node node (first ∷ rest))

  unfoldable pub simplify : Graph → ℕ → Graph × List ℕ × List ℕ × List ℕ
  simplify g k =
      let nodes = numbers (size g) 0 in
      let (removed, order) = queue_bound nodes g [] in
      let n = retain (λ r. not (is_bound g r)) nodes in
      simplify_loop (length n) k removed [] order n
