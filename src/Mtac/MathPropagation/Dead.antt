-- ===== src/Mtac/MathPropagation/Dead.antt =====
-- The second round of MathPropagation never rewrites: its test asks for an `if_false` operator, and
-- the rewrite below it for ASSIGN.
use eddic.Prelude.{
  ℕ, ◌≡◌, refl, arith, Bool, true, false, ◌&&◌, List, [], ◌∷◌, inl, inr, Bool-cases, ◌∙◌,
}
use mathlib.Core.Bool.{not}
use eddic.Mtac.Operator.{Operator, same, is_if, is_if_false}
use eddic.Mtac.Quadruple.{Quadruple}
use eddic.Mtac.MathPropagation.{MathPropagation, optimize, math_propagation, optimize_branch, round}

not-assign :
    (op : Operator) → (not (is_if op) && is_if_false op) ≡ true → same op Operator.assign ≡ false
unfolding is_if is_if_false
not-assign Operator.assign h = cc
not-assign op h = ground arith

module _ {D : Type 0} (is_array is_string : ℕ → Bool) where
  -- One quadruple: it stays, and so do the flag and the pass.
  optimize_branch-eq :
      (m : MathPropagation D) (q : Quadruple D)
      → ((optimize_branch is_array is_string m q).1 ≡ q)
        × ((optimize_branch is_array is_string m q).0.optimized ≡ m.optimized)
        × ((optimize_branch is_array is_string m q).0.pass ≡ m.pass)
  unfolding optimize_branch
  optimize_branch-eq m q = elim (Bool-cases (not (is_if q.op) && is_if_false q.op)) [
    | inl t ↦ ground (arith, not-assign q.op t)
    | inr f ↦ ground arith
  ]

  math_propagation-eq :
      (m : MathPropagation D) (q : Quadruple D)
      → m.pass ≡ optimize
      → ((math_propagation is_array is_string m q).1 ≡ q)
        × ((math_propagation is_array is_string m q).0.optimized ≡ m.optimized)
        × ((math_propagation is_array is_string m q).0.pass ≡ optimize)
  unfolding math_propagation
  math_propagation-eq m q h = ground (arith, optimize_branch-eq m q)

  round_stays :
      (m : MathPropagation D) (qs : List (Quadruple D))
      → m.pass ≡ optimize
      → ((round is_array is_string m qs).1 ≡ qs)
        × ((round is_array is_string m qs).0.optimized ≡ m.optimized)
  unfolding round
  round_stays m [] h = (refl, refl)
  round_stays m (q ∷ qs) h =
      let (same_q, flag, pass) = math_propagation-eq m q h in
      let (same_qs, flags) = round_stays (math_propagation is_array is_string m q).0 qs pass in
      (λ i. same_q i ∷ same_qs i, flags ∙ flag)

-- In the round that is to optimize, over any block and from any state of the pass, MathPropagation
-- returns every quadruple as it was and leaves `optimized` as it was.
pub round-optimize :
    {D : Type 0} (is_array is_string : ℕ → Bool) (m : MathPropagation D) (qs : List (Quadruple D))
    → m.pass ≡ optimize
    → ((round is_array is_string m qs).1 ≡ qs)
      × ((round is_array is_string m qs).0.optimized ≡ m.optimized)
round-optimize is_array is_string m qs h = round_stays is_array is_string m qs h
