-- ===== src/Ltac/Allocation/Attempt/Total.antt =====
-- A round of register allocation never fails.
use eddic.Prelude.{
  ℕ, ◌≤◌, ◌≡◌, refl, ◌∙◌, arith, some, List, [], ◌∷◌, ◌==◌, length, IsDistinct, Bool-cases, inl,
  inr,
}
use eddic.Platform.{Platform, intel_x86, intel_x86_64}
use eddic.Ltac.Allocation.Graph.{Graph, size, build_interference_graph}
use eddic.Ltac.Allocation.Simplify.{Doubles, simplify}
use eddic.Ltac.Allocation.Simplify.Kept.{Alike, is_bound-Alike, degree-Alike}
use eddic.Ltac.Allocation.Simplify.Order.{IsLow}
use eddic.Ltac.Allocation.Simplify.Loop.{IsSplit, simplify-IsSplit}
use eddic.Ltac.Allocation.Select.{Allocation, select}
use eddic.Ltac.Allocation.Select.Complete.{select_total}
use eddic.Ltac.Allocation.Attempt.{
  RegisterClass, int_registers, float_registers, number_of_registers, hard_registers, Outcome,
  no_register, to_spill, allocated, spill_or_select, register_allocation,
}

hard_registers-IsDistinct :
    (c : RegisterClass) (platform : Platform) → IsDistinct (hard_registers c platform)
unfolding hard_registers
hard_registers-IsDistinct int_registers intel_x86 =
    (refl, (refl, (refl, (refl, (refl, (refl, tt))))))
hard_registers-IsDistinct int_registers intel_x86_64 = (
  refl,
  (
    refl,
    (
      refl,
      (refl, (refl, (refl, (refl, (refl, (refl, (refl, (refl, (refl, (refl, (refl, tt))))))))))),
    ),
  ),
)
hard_registers-IsDistinct float_registers intel_x86 =
    (refl, (refl, (refl, (refl, (refl, (refl, (refl, (refl, tt))))))))
hard_registers-IsDistinct float_registers intel_x86_64 =
    (refl, (refl, (refl, (refl, (refl, (refl, (refl, (refl, tt))))))))

enough_registers :
    (c : RegisterClass) (platform : Platform)
    → number_of_registers c platform ≤ length (hard_registers c platform)
unfolding number_of_registers hard_registers
enough_registers int_registers intel_x86 = omega arith
enough_registers int_registers intel_x86_64 = omega arith
enough_registers float_registers intel_x86 = omega arith
enough_registers float_registers intel_x86_64 = omega arith

spill_or_select-total :
    (c : RegisterClass) (platform : Platform) (g : Graph) (order spilled : List ℕ)
    → ((s : Allocation × List ℕ) × (select g (hard_registers c platform) order ≡ some s))
    → (o : Outcome) × (spill_or_select c platform g order spilled ≡ some o)
unfolding spill_or_select
spill_or_select-total c platform g order [] (s, e) = rw e (allocated s.0 s.1, refl)
spill_or_select-total c platform g order (reg ∷ rest) e = (to_spill (reg ∷ rest), refl)

IsLow-Alike : (order : List ℕ) (g h : Graph) (k : ℕ) → Alike g h → IsLow g k order → IsLow h k order
IsLow-Alike [] g h k same low = tt
IsLow-Alike (r ∷ rest) g h k same (low, others) = (
  elim low [
    | inl bound ↦ inl (is_bound-Alike g h same r ∙ bound)
    | inr less ↦ inr (rw (degree-Alike g h same r rest) less)
  ],
  IsLow-Alike rest g h k same others,
)

-- What select reads of the graph that simplify leaves.
spilled_or_selected :
    (c : RegisterClass) (platform : Platform) (g : Graph) (s : Graph × List ℕ × List ℕ × List ℕ)
    → IsSplit g (number_of_registers c platform) s
    → (o : Outcome) × (spill_or_select c platform s.0 s.2 s.1 ≡ some o)
spilled_or_selected c platform g (h, spilled, order, n) split =
    let k = number_of_registers c platform in
    spill_or_select-total c platform h order spilled (
      select_total h k (hard_registers c platform) order
        (IsLow-Alike order g h k split.alike split.low) split.distinct
        (hard_registers-IsDistinct c platform) (enough_registers c platform))

-- Whatever registers a function gathers, whatever sets of them are live together and whatever the
-- spill costs, a round of register allocation ends without a failed assertion, for both classes of
-- registers on both platforms.
pub register_allocation-total :
    {D : Type 0} (d : Doubles D) (c : RegisterClass) (platform : Platform) (gathered : Graph)
    (lives : List (List ℕ)) (costs : List ℕ)
    → (o : Outcome) × (register_allocation d c platform gathered lives costs ≡ some o)
unfolding register_allocation
register_allocation-total d c platform gathered lives costs =
    elim (Bool-cases (size (build_interference_graph gathered lives) == 0)) [
      | inl empty ↦ rw empty (no_register, refl)
      | inr full ↦
          let built = build_interference_graph gathered lives in
          let estimated = record built { spill_costs = costs } in
          let k = number_of_registers c platform in
          rw full (
            spilled_or_selected c platform estimated (simplify d estimated k)
              (simplify-IsSplit d estimated k).0)
    ]
