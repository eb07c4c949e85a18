-- ===== src/Ltac/Allocation/Attempt/Colored.antt =====
-- A round of register allocation that gives registers gives one to every node.
use eddic.Prelude.{ℕ, ◌<◌, ◌≡◌, ap, arith, some, List, [], ◌==◌, length, Bool-cases, inl, inr}
use mathlib.Core.Option.{some-injective}
use eddic.Platform.{Platform}
use eddic.Ltac.Allocation.Graph.{Graph, size, build_interference_graph}
use eddic.Ltac.Allocation.Graph.Registers.{built-registers}
use eddic.Ltac.Allocation.Simplify.{Doubles, simplify}
use eddic.Ltac.Allocation.Simplify.Loop.{IsSplit, simplify-IsSplit}
use eddic.Ltac.Allocation.Select.{Allocation}
use eddic.Ltac.Allocation.Select.Covers.{HasColor, select-covers}
use eddic.Ltac.Allocation.Attempt.{
  RegisterClass, number_of_registers, hard_registers, no_register, allocated, spill_or_select,
  register_allocation,
}
use eddic.Ltac.Allocation.Attempt.Apart.{
  every_ordered, spill_or_select-allocated, no_register-allocated,
}

simplified-HasColor :
    (c : RegisterClass) (platform : Platform) (g : Graph) (s : Graph × List ℕ × List ℕ × List ℕ)
    (a : Allocation) (given : List ℕ) (r : ℕ)
    → IsSplit g (number_of_registers c platform) s
    → s.3 ≡ []
    → spill_or_select c platform s.0 s.2 s.1 ≡ some (allocated a given)
    → r < size g
    → HasColor a r
simplified-HasColor c platform g s a given r split over h l =
    let k = number_of_registers c platform in
    let (empty, chosen) = spill_or_select-allocated c platform s.0 s.2 s.1 given a h in
    select-covers s.0 (hard_registers c platform) s.2 a given r chosen
      (every_ordered g k s r split over empty l)

pub register_allocation-HasColor :
    {D : Type 0} (d : Doubles D) (c : RegisterClass) (platform : Platform) (g : Graph)
    (lives : List (List ℕ)) (costs : List ℕ) (a : Allocation) (given : List ℕ) (r : ℕ)
    → register_allocation d c platform g lives costs ≡ some (allocated a given)
    → r < size g
    → HasColor a r
unfolding register_allocation size
register_allocation-HasColor d c platform g lives costs a given r h l =
    elim (Bool-cases (size (build_interference_graph g lives) == 0)) [
      | inl empty ↦ absurd (
          no_register-allocated a given
            (some-injective no_register (allocated a given) (rw empty at h)))
      | inr full ↦
          let built = build_interference_graph g lives in
          let estimated = record built { spill_costs = costs } in
          let k = number_of_registers c platform in
          let (split, over) = simplify-IsSplit d estimated k in
          let counted : length built.index_to_pseudo ≡ length g.index_to_pseudo =
            ap length (built-registers g lives) in
          simplified-HasColor c platform estimated (simplify d estimated k) a given r split over
            (rw full at h) (omega (arith, l, counted))
    ]
