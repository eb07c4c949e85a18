-- ===== src/Mtac/MathPropagation.antt =====
-- src/mtac/MathPropagation.cpp: the pass counts the uses of variables in a first round over a block,
-- and is to copy an operation to the one place of its result in a second. The types of variables are
-- a parameter.
pub mod Dead
use eddic.Prelude.{
  ℕ, ◌+◌, ◌≡◌, refl, arith, ap, Bool, true, false, ◌&&◌, Option, none, some, List, [], ◌∷◌, ◌==◌,
  if◌then◌else◌, Bool-cases, inl, inr,
}
use mathlib.Core.Bool.{not}
use eddic.Mtac.Operator.{Operator, position, same, is_if, is_if_false}
use eddic.Mtac.Quadruple.{Argument, Quadruple, variable}

-- include/mtac/Pass.hpp
pub data Pass : Type 0 where
  data_mining optimize : Pass

-- `assigns` maps a variable to the quadruple that writes it. The source keeps references; a copy
-- stands for one, as no quadruple changes while it is in the map.
pub record MathPropagation (D : Type 0) : Type 0 where
  pub optimized : Bool
  pub pass : Pass
  pub assigns : List (ℕ × Quadruple D)
  pub usage : ℕ → ℕ

abbrev pub increment : (ℕ → ℕ) → ℕ → ℕ → ℕ
increment usage x y = if x == y then usage y + 1 else usage y

module _ {D : Type 0} where
  abbrev pub find : List (ℕ × Quadruple D) → ℕ → Option (Quadruple D)
  find [] x = none
  find ((y, q) ∷ m) x = if y == x then some q else find m x

  -- `emplace` keeps an entry that is there.
  abbrev emplace : List (ℕ × Quadruple D) → ℕ → Quadruple D → List (ℕ × Quadruple D)
  emplace m x q = elim (find m x) [ none ↦ (x, q) ∷ m | some _ ↦ m ]

  clear : MathPropagation D → MathPropagation D
  clear m = record m { optimized = false; assigns = []; usage = λ x. 0 }

  count_use : (ℕ → ℕ) → Option (Argument D) → ℕ → ℕ
  count_use usage (some (variable x)) = increment usage x
  count_use usage _ = usage

  mine : MathPropagation D → Quadruple D → MathPropagation D
  unfolding count_use
  mine m q = record m { usage = count_use (count_use m.usage q.arg1) q.arg2 }

  -- `if(quadruple.result && quadruple.op != CALL)`
  remember : MathPropagation D → Quadruple D → Option ℕ → MathPropagation D
  remember m q none = m
  remember m q (some r) =
      if same q.op Operator.call then m else record m { assigns = emplace m.assigns r q }

  -- The body of the test on ASSIGN; `is_array r` asks the type of the result, `is_string x` that of
  -- the argument.
  duplicate :
      (ℕ → Bool)
      → (ℕ → Bool)
      → MathPropagation D
      → Quadruple D
      → Option ℕ
      → Option (Argument D)
      → MathPropagation D × Quadruple D
  duplicate is_array is_string m q (some r) (some (variable x)) =
      if not (is_array r) && (not (is_string x) && (m.usage x == 1))
      then elim (find m.assigns x) [
        | none ↦ (m, q)
        | some assign ↦ (
          record m { optimized = true },
          record q { op = assign.op; arg1 = assign.arg1; arg2 = assign.arg2 },
        )
      ]
      else (m, q)
  duplicate is_array is_string m q _ _ = (m, q)

  optimize_branch :
      (ℕ → Bool) → (ℕ → Bool) → MathPropagation D → Quadruple D → MathPropagation D × Quadruple D
  unfolding remember duplicate
  optimize_branch is_array is_string m q =
      if not (is_if q.op) && is_if_false q.op
      then (let m' = remember m q q.result in
          if same q.op Operator.assign
          then duplicate is_array is_string m' q q.result q.arg1
          else (m', q))
      else (m, q)

  by_pass :
      (ℕ → Bool)
      → (ℕ → Bool)
      → Pass
      → MathPropagation D
      → Quadruple D
      → MathPropagation D × Quadruple D
  unfolding mine optimize_branch
  by_pass is_array is_string data_mining m q = (mine m q, q)
  by_pass is_array is_string optimize m q = optimize_branch is_array is_string m q

  unfoldable pub math_propagation :
      (ℕ → Bool) → (ℕ → Bool) → MathPropagation D → Quadruple D → MathPropagation D × Quadruple D
  unfolding by_pass
  math_propagation is_array is_string m q = by_pass is_array is_string m.pass m q

  -- One round of the pass over the quadruples of a block.
  unfoldable pub round :
      (ℕ → Bool)
      → (ℕ → Bool)
      → MathPropagation D
      → List (Quadruple D)
      → MathPropagation D × List (Quadruple D)
  round is_array is_string m [] = (m, [])
  round is_array is_string m (q ∷ qs) =
      let (m', q') = math_propagation is_array is_string m q in
      let (m'', qs') = round is_array is_string m' qs in (m'', q' ∷ qs')
