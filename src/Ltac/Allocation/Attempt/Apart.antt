-- ===== src/Ltac/Allocation/Attempt/Apart.antt =====
-- A round of register allocation gives registers that are live together different registers.
use eddic.Prelude.{
  ℕ, ◌<◌, ◌≡◌, ◌≢◌, refl, sym, ap, ◌∙◌, arith, Bool, true, false, ◌&&◌, none, some, List, [], ◌∷◌,
  ◌==◌, length, get_or, contains, Bool-cases, >>=-eq-some, inl, inr,
}
use mathlib.Core.Bool.{not}
use mathlib.Core.Option.{some-injective}
use eddic.Platform.{Platform}
use eddic.Ltac.Allocation.Graph.{
  Graph, size, neighbors, pseudo_of, unnamed, build_interference_graph,
}
use eddic.Ltac.Allocation.Graph.Registers.{built-registers}
use eddic.Ltac.Allocation.Graph.Pairs.{are_live_once, AreBelow}
use eddic.Ltac.Allocation.Graph.Live.{contains-neighbors_built, live_below}
use eddic.Ltac.Allocation.Simplify.{Doubles, is_bound, simplify}
use eddic.Ltac.Allocation.Simplify.Kept.{Alike, neighbors-Alike}
use eddic.Ltac.Allocation.Simplify.Loop.{IsSplit, simplify-IsSplit}
use eddic.Ltac.Allocation.Select.{Allocation, select}
use eddic.Ltac.Allocation.Select.Proper.{IsInterference, select-IsProper}
use eddic.Ltac.Allocation.Select.Covers.{select-covers}
use eddic.Ltac.Allocation.Attempt.{
  RegisterClass, number_of_registers, hard_registers, Outcome, no_register, to_spill, allocated,
  spill_or_select, register_allocation,
}

symmetric_live :
    (lives : List (List ℕ)) (r n : ℕ) → are_live_once lives r n ≡ are_live_once lives n r
symmetric_live [] r n = refl
symmetric_live (live ∷ rest) r n = ground (arith, symmetric_live rest r n)

neighbors_left :
    (g h : Graph) (lives : List (List ℕ)) (r n : ℕ)
    → g.adjacency_vectors ≡ []
    → AreBelow (size g) lives
    → Alike (build_interference_graph g lives) h
    → contains (neighbors h r) n ≡ (not (r == n) && are_live_once lives r n)
neighbors_left g h lives r n fresh below same =
    ap (λ ns. contains ns n) (neighbors-Alike (build_interference_graph g lives) h same r)
    ∙ contains-neighbors_built g lives r n fresh below

built-IsInterference :
    (g h : Graph) (lives : List (List ℕ))
    → g.adjacency_vectors ≡ []
    → AreBelow (size g) lives
    → Alike (build_interference_graph g lives) h
    → IsInterference h
built-IsInterference g h lives fresh below same =
    let joined : (r n : ℕ)
        → contains (neighbors h r) n ≡ (not (r == n) && are_live_once lives r n) =
      λ r n. neighbors_left g h lives r n fresh below same in
    record {
      symmetric =
          λ r n m. joined n r ∙ ground (arith, symmetric_live lives r n, sym (joined r n) ∙ m);
      irreflexive = λ r. joined r r ∙ ground arith;
    }

registers-is_bound :
    (g h : Graph) (r : ℕ) → h.index_to_pseudo ≡ g.index_to_pseudo → is_bound h r ≡ is_bound g r
unfolding pseudo_of
registers-is_bound g h r e = ap (λ v. (get_or v r unnamed).bound) e

-- The two nodes have registers, and they are different.
abbrev pub AreApart : Allocation → ℕ → ℕ → Type 0
AreApart a r n = (c : ℕ) × (e : ℕ) × (a r ≡ some c) × (a n ≡ some e) × (c ≢ e)

abbrev is_to_spill : Outcome → Bool
is_to_spill no_register = false
is_to_spill (to_spill nodes) = true
is_to_spill (allocated a given) = false

abbrev is_done : Outcome → Bool
is_done no_register = false
is_done (to_spill nodes) = true
is_done (allocated a given) = true

pub no_register-allocated : (a : Allocation) (given : List ℕ) → no_register ≢ allocated a given
no_register-allocated a given e = let wrong = ap is_done e in cc

abbrev allocation_of : Outcome → Allocation
allocation_of no_register = λ r. none
allocation_of (to_spill nodes) = λ r. none
allocation_of (allocated a given) = a

abbrev given_of : Outcome → List ℕ
given_of no_register = []
given_of (to_spill nodes) = []
given_of (allocated a given) = given

pub spill_or_select-allocated :
    (c : RegisterClass) (platform : Platform) (g : Graph) (order spilled given : List ℕ)
    (a : Allocation)
    → spill_or_select c platform g order spilled ≡ some (allocated a given)
    → (spilled ≡ []) × (select g (hard_registers c platform) order ≡ some (a, given))
unfolding spill_or_select
spill_or_select-allocated c platform g order [] given a h =
    let (s, e, k) = >>=-eq-some (select g (hard_registers c platform) order) _ h in
    let same = some-injective (allocated s.0 s.1) (allocated a given) k in
    (refl, e ∙ ap some (ap (λ o. (allocation_of o, given_of o)) same))
spill_or_select-allocated c platform g order (reg ∷ rest) given a h =
    let wrong = ap is_to_spill (some-injective (to_spill (reg ∷ rest)) (allocated a given) h) in cc

-- What select gives on the graph that simplify leaves.
selected-AreApart :
    (h : Graph) (colors order : List ℕ) (a : Allocation) (given : List ℕ) (r n : ℕ)
    → IsInterference h
    → select h colors order ≡ some (a, given)
    → contains (neighbors h r) n ≡ true
    → contains order r ≡ true
    → contains order n ≡ true
    → is_bound h r ≡ false
    → AreApart a r n
selected-AreApart h colors order a given r n ok e edge mr mn free =
    let (c, ec) = select-covers h colors order a given r e mr in
    let (d, ed) = select-covers h colors order a given n e mn in
    (
      c,
      d,
      ec,
      ed,
      λ same.
          select-IsProper h ok colors order a given e r n c free edge ec (ed ∙ ap some (sym same)),
    )

pub every_ordered :
    (g : Graph) (k : ℕ) (s : Graph × List ℕ × List ℕ × List ℕ) (x : ℕ)
    → IsSplit g k s
    → s.3 ≡ []
    → s.1 ≡ []
    → x < size g
    → contains s.2 x ≡ true
every_ordered g k s x split over kept l =
    ground (arith, split.every x l, ap (λ xs. contains xs x) over, ap (λ xs. contains xs x) kept)

simplified-AreApart :
    (c : RegisterClass) (platform : Platform) (g : Graph) (lives : List (List ℕ))
    (estimated : Graph) (s : Graph × List ℕ × List ℕ × List ℕ) (a : Allocation) (given : List ℕ)
    (r n : ℕ)
    → g.adjacency_vectors ≡ []
    → AreBelow (size g) lives
    → Alike (build_interference_graph g lives) estimated
    → IsSplit estimated (number_of_registers c platform) s
    → s.3 ≡ []
    → spill_or_select c platform s.0 s.2 s.1 ≡ some (allocated a given)
    → are_live_once lives r n ≡ true
    → (r == n) ≡ false
    → is_bound g r ≡ false
    → AreApart a r n
unfolding size
simplified-AreApart c platform g lives estimated s a given r n fresh below same split over h live
      apart free =
    let k = number_of_registers c platform in
    let built = build_interference_graph g lives in
    let left : Alike built s.0 = record {
      vectors = split.alike.vectors ∙ same.vectors;
      registers = split.alike.registers ∙ same.registers;
    } in
    let kept = built-registers g lives in
    let counted : size estimated ≡ size g = ap length (same.registers ∙ kept) in
    let (hr, hn) = live_below (size g) lives r n below live in
    let (empty, chosen) = spill_or_select-allocated c platform s.0 s.2 s.1 given a h in
    selected-AreApart s.0 (hard_registers c platform) s.2 a given r n
      (built-IsInterference g s.0 lives fresh below left) chosen
      (neighbors_left g s.0 lives r n fresh below left ∙ ground (arith, live, apart))
      (every_ordered estimated k s r split over empty (omega arith))
      (every_ordered estimated k s n split over empty (omega arith))
      (registers-is_bound g s.0 r (left.registers ∙ kept) ∙ free)

-- When a round of register allocation gives registers, two nodes that are live together after some
-- statement both have one, and not the same, unless both are bound registers. The graph before the
-- build has no vectors, and the sets of live registers hold nodes of it.
pub register_allocation-AreApart :
    {D : Type 0} (d : Doubles D) (c : RegisterClass) (platform : Platform) (g : Graph)
    (lives : List (List ℕ)) (costs : List ℕ) (a : Allocation) (given : List ℕ) (r n : ℕ)
    → g.adjacency_vectors ≡ []
    → AreBelow (size g) lives
    → register_allocation d c platform g lives costs ≡ some (allocated a given)
    → are_live_once lives r n ≡ true
    → (r == n) ≡ false
    → is_bound g r ≡ false
    → AreApart a r n
unfolding register_allocation
register_allocation-AreApart d c platform g lives costs a given r n fresh below h live apart free =
    elim (Bool-cases (size (build_interference_graph g lives) == 0)) [
      | inl empty ↦
          let wrong = some-injective no_register (allocated a given) (rw empty at h) in
          absurd (no_register-allocated a given wrong)
      | inr full ↦
          let built = build_interference_graph g lives in
          let estimated = record built { spill_costs = costs } in
          let k = number_of_registers c platform in
          let (split, over) = simplify-IsSplit d estimated k in
          simplified-AreApart c platform g lives estimated (simplify d estimated k) a given r n
            fresh below (record { vectors = refl; registers = refl }) split over (rw full at h) live
            apart free
    ]
