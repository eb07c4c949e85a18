-- ===== src/Ltac/Allocation/Select.antt =====
-- src/ltac/register_allocator.cpp: select, up to the replacement of the registers.
pub mod Proper
pub mod Counted
pub mod Complete
pub mod Covers
use eddic.Prelude.{
  ℕ, Bool, true, false, ◌||◌, Option, none, some, List, [], ◌∷◌, ◌==◌, if◌then◌else◌, retain, ◌>>=◌,
}
use mathlib.Core.Bool.{not}
use eddic.Ltac.Allocation.Graph.{Graph, neighbors}
use eddic.Ltac.Allocation.Simplify.{is_bound, binding_of}

-- `allocation`, from nodes to colours
abbrev pub Allocation : Type 0
Allocation = ℕ → Option ℕ

abbrev pub allocate : ℕ → ℕ → Allocation → Allocation
allocate r color allocation = λ x. if x == r then some color else allocation x

abbrev pub has_color : Option ℕ → ℕ → Bool
has_color none color = false
has_color (some c) color = c == color

-- the inner loop: whether some neighbour has the colour
unfoldable pub is_taken : Allocation → List ℕ → ℕ → Bool
is_taken allocation [] color = false
is_taken allocation (n ∷ rest) color =
    has_color (allocation n) color || is_taken allocation rest color

unfoldable pub free_color : Allocation → List ℕ → List ℕ → Option ℕ
unfolding is_taken
free_color allocation nodes [] = none
free_color allocation nodes (color ∷ rest) =
    let later = free_color allocation nodes rest in
    if is_taken allocation nodes color then later else some color

-- the bound registers get their own
unfoldable pub allocate_bound : Graph → List ℕ → Allocation → Allocation
allocate_bound g [] allocation = allocation
allocate_bound g (r ∷ rest) allocation =
    let taken = allocate_bound g rest (allocate r (binding_of g r) allocation) in
    let passed = allocate_bound g rest allocation in if is_bound g r then taken else passed

-- while(!order.empty()), from the back; `none` is the failed assertion that a colour was found. The
-- colours given are `variable_allocated`.
unfoldable pub select_loop :
    Graph → List ℕ → List ℕ → Allocation → List ℕ → Option (Allocation × List ℕ)
unfolding free_color
select_loop g colors [] allocation given = some (allocation, given)
select_loop g colors (r ∷ rest) allocation given = do
  color ← free_color allocation (neighbors g r) colors
  select_loop g colors rest (allocate r color allocation) (color ∷ given)

unfoldable pub select : Graph → List ℕ → List ℕ → Option (Allocation × List ℕ)
unfolding allocate_bound select_loop
select g colors order =
    select_loop g colors (retain (λ r. not (is_bound g r)) order)
      (allocate_bound g order (λ r. none)) []
