-- ===== src/Mtac/Identities/Assign.antt =====
-- The assignment of a variable to itself, which ArithmeticIdentities removes.
use eddic.Prelude.{
  ℕ, ◌≡◌, inl, inr, refl, arith, Bool, true, false, Option, none, some, ◌>>=◌, Bool-cases, ◌==◌,
  if◌then◌else◌, ◌∙◌, ap,
}
use eddic.Mtac.Operator.{Operator}
use eddic.Mtac.Quadruple.{Doubles, Argument, Quadruple, variable, double, int, text, eq_variable}
use eddic.Mtac.Meaning.{
  Value, writes, read, effect, run, commit, Agrees, Agrees-of_eq, Preserves, binary_op, unary_op,
}
use eddic.Mtac.Preserve.{quad}
use eddic.Mtac.Identities.{assign_identities}

module _ {D : Type 0} (d : Doubles D) (env : ℕ → Value D) where
  -- Writing its own value to a variable leaves the store as it is.
  pub written_back : (x r y : ℕ) → (x == r) ≡ true → env y ≡ (if y == r then env x else env y)
  written_back x r y h = ground arith

  pub self-assign :
      (r : Option ℕ) (a : Argument D) (s : (ℕ → Value D) × Bool)
      → commit d env r (writes (read env a)) ≡ some s
      → eq_variable a r ≡ true
      → Agrees s (some (env, false))
  self-assign (some r) (variable x) s c h =
      let e : ((λ y. if y == r then env x else env y), false) ≡ s = cc in
      (λ y. written_back x r y h ∙ ap (λ t. t.0 y) e, ap (λ t. t.1) e)
  self-assign none (variable x) s c h = cc
  self-assign r (int x) s c h = cc
  self-assign r (double x) s c h = cc
  self-assign r (text x) s c h = cc

  -- An assignment that ran has one argument, and writes its value.
  pub assign_shape :
      (q : Quadruple D) (a b : Option (Argument D)) (s : (ℕ → Value D) × Bool)
      → run d env (quad q Operator.assign a b) ≡ some s
      → (x : Argument D) × (a ≡ some x)
        × (b ≡ none)
        × (commit d env q.result (writes (read env x)) ≡ some s)
  unfolding run effect unary_op binary_op
  assign_shape q none none s h = cc
  assign_shape q none (some b) s h = cc
  assign_shape q (some a) (some b) s h = ground arith
  assign_shape q (some a) none s h = (a, refl, refl, ground arith)

  pub passign_shape :
      (q : Quadruple D) (a b : Option (Argument D)) (s : (ℕ → Value D) × Bool)
      → run d env (quad q Operator.passign a b) ≡ some s
      → (x : Argument D) × (a ≡ some x)
        × (b ≡ none)
        × (commit d env q.result (writes (read env x)) ≡ some s)
  unfolding run effect unary_op binary_op
  passign_shape q none none s h = cc
  passign_shape q none (some b) s h = cc
  passign_shape q (some a) (some b) s h = ground arith
  passign_shape q (some a) none s h = (a, refl, refl, ground arith)

  pub fassign_shape :
      (q : Quadruple D) (a b : Option (Argument D)) (s : (ℕ → Value D) × Bool)
      → run d env (quad q Operator.fassign a b) ≡ some s
      → (x : Argument D) × (a ≡ some x)
        × (b ≡ none)
        × (commit d env q.result (writes (read env x)) ≡ some s)
  unfolding run effect unary_op binary_op
  fassign_shape q none none s h = cc
  fassign_shape q none (some b) s h = cc
  fassign_shape q (some a) (some b) s h = ground arith
  fassign_shape q (some a) none s h = (a, refl, refl, ground arith)

  pub assign-Preserves :
      (q : Quadruple D) (o : Bool) (op : Operator) (a b : Option (Argument D))
      (s : (ℕ → Value D) × Bool)
      → run d env (quad q op a b) ≡ some s
      → (x : Argument D) × (a ≡ some x)
        × (b ≡ none)
        × (commit d env q.result (writes (read env x)) ≡ some s)
      → Preserves d env s (assign_identities d (quad q op a b) o)
  unfolding assign_identities run effect
  assign-Preserves q o op none b s h (x, ea, eb, c) = cc
  assign-Preserves q o op (some a) b s h (x, ea, eb, c) =
      elim (Bool-cases (eq_variable a q.result)) [
        | inl t ↦ let e : x ≡ a = cc in rw (t, ◌>>=◌) (self-assign q.result a s (rw e at c) t)
        | inr f ↦ rw (f, ◌>>=◌) (Agrees-of_eq s _ h)
      ]
