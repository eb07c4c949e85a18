-- ===== src/Mtac/Preserve.antt =====
-- What the proofs about the passes share: a quadruple with its parts written out, and how an equal
-- effect gives an equal run.
use eddic.Prelude.{
  ℕ, ◌≡◌, ◌⊎◌, inl, inr, refl, arith, Bool, true, Option, none, some, ◌>>=◌, >>=-eq-some, ap,
}
use package.text.Mathlib.TextEquality.{eq_iff}
use eddic.Mtac.Operator.{Operator}
use eddic.Mtac.Quadruple.{
  Doubles, Argument, Quadruple, variable, double, int, text, eq_int, eq_argument,
}
use eddic.Mtac.Meaning.{
  Value, integer, real, address, Effect, read, effect, run, commit, Agrees-of_eq, Preserves,
  binary_op,
}

-- A quadruple with the given operator and arguments.
abbrev pub quad :
    {D : Type 0} → Quadruple D → Operator → Option (Argument D) → Option (Argument D) → Quadruple D
quad q op a b = record q { op = op; arg1 = a; arg2 = b }

module _ {D : Type 0} (d : Doubles D) (env : ℕ → Value D) where
  -- The pass returns a quadruple that has the same effect on the same result.
  abbrev pub Keeps : Effect D → Option ℕ → Option (Quadruple D × Bool) → Type 0
  Keeps e r none = ⊥
  Keeps e r (some (q, o)) = (effect d env q.op q.arg1 q.arg2 ≡ some e) × (q.result ≡ r)

  pub eq_int-read : (a : Argument D) (n : ℕ) → eq_int a n ≡ true → read env a ≡ integer n
  eq_int-read (int m) n h = ground arith
  eq_int-read (variable x) n h = cc
  eq_int-read (double x) n h = cc
  eq_int-read (text s) n h = cc

  -- Arguments that compare equal hold one value, or are floats.
  pub eq_argument-read :
      (a b : Argument D)
      → eq_argument d a b ≡ true
      → (read env a ≡ read env b) ⊎ ((x : D) × (read env a ≡ real x))
  eq_argument-read (variable x) (variable y) h = inl (ground arith)
  eq_argument-read (int m) (int n) h = inl (ground arith)
  eq_argument-read (text s) (text t) h = inl (ap address ((eq_iff s t).0 h))
  eq_argument-read (double x) b h = inr (x, refl)
  eq_argument-read (variable x) b h = cc
  eq_argument-read (int m) b h = cc
  eq_argument-read (text s) b h = cc

  pub run-Keeps :
      (q : Quadruple D) (e : Effect D) (s : (ℕ → Value D) × Bool) (v : Option (Quadruple D × Bool))
      → commit d env q.result e ≡ some s
      → Keeps e q.result v
      → Preserves d env s v
  unfolding run
  run-Keeps q e s none c k = k
  run-Keeps q e s (some (q', o)) c k = Agrees-of_eq s (run d env q') (rw (k.0, ◌>>=◌) (rw k.1 c))

  -- A binary operator that ran had an effect.
  pub run_binary :
      (q : Quadruple D) (op : Operator) (a b : Argument D) (s : (ℕ → Value D) × Bool)
      → run d env (quad q op (some a) (some b)) ≡ some s
      → (e : Effect D) × (binary_op d op (read env a) (read env b) ≡ some e)
        × (commit d env q.result e ≡ some s)
  unfolding run effect
  run_binary q op a b s h = >>=-eq-some (binary_op d op (read env a) (read env b)) _ h

  -- A quadruple that ran had an effect.
  pub run-eq-some :
      (q : Quadruple D) (s : (ℕ → Value D) × Bool)
      → run d env q ≡ some s
      → (e : Effect D) × (effect d env q.op q.arg1 q.arg2 ≡ some e)
        × (commit d env q.result e ≡ some s)
  unfolding run
  run-eq-some q s h = >>=-eq-some (effect d env q.op q.arg1 q.arg2) _ h
