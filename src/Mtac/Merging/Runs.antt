-- ===== src/Mtac/Merging/Runs.antt =====
-- src/mtac/merge_basic_blocks.cpp: a run of a function, from block to block, and what it is after the
-- operations that the pass calls. The statements that are no GOTO, no NOP and no branch on one argument
-- do what a parameter says.
use eddic.Prelude.{
  ℕ, ◌≡◌, ◌⊎◌, refl, sym, ap, ◌∙◌, arith, Bool, true, false, ◌&&◌, ◌||◌, Option, none, some, List,
  [], ◌∷◌, ◌++◌, ◌==◌, if◌then◌else◌, Bool-cases, Option-cases, inl, inr, ◌>>=◌, >>=-eq-some,
}
use mathlib.Core.Bool.{not}
use eddic.Mtac.Operator
use eddic.Mtac.Operator.{same}
use eddic.Mtac.Quadruple.{Doubles, Quadruple}
use eddic.Mtac.Meaning.{Value, run}
use eddic.Mtac.Branches.Flow.{Flow, falls, jumps, flow_of, go_on, is_unary_branch, exec_one, exec}
use eddic.Mtac.Merging.Code.{Places}

-- no jump to the block `n`
abbrev pub avoids : ℕ → {D : Type 0} → List (Quadruple D) → Bool
avoids n [] = true
avoids n (q ∷ rest) = (elim q.block [ none ↦ true | some p ↦ not (p == n) ]) && avoids n rest

-- the block behind another, once `n` is taken away and `k` is behind it
abbrev pub past : ℕ → Option ℕ → Option ℕ → Option ℕ
past n none k = none
past n (some m) k = if m == n then k else some m

module _ {D : Type 0} where
  abbrev pub first_at : Places D → Option ℕ
  first_at [] = none
  first_at ((i, qs) ∷ rest) = some i

  abbrev pub next_at : Places D → ℕ → Option ℕ
  next_at [] i = none
  next_at ((j, qs) ∷ rest) i = if j == i then first_at rest else next_at rest i

  abbrev pub statements_at : Places D → ℕ → List (Quadruple D)
  statements_at [] i = []
  statements_at ((j, qs) ∷ rest) i = if j == i then qs else statements_at rest i

  abbrev pub index_list : Places D → List ℕ
  index_list [] = []
  index_list ((i, qs) ∷ rest) = i ∷ index_list rest

pub Flow-cases : (flow : Flow) → (flow ≡ falls) ⊎ ((t : Option ℕ) × (flow ≡ jumps t))
Flow-cases falls = inl refl
Flow-cases (jumps t) = inr (t, refl)

avoids-block :
    (n : ℕ) {D : Type 0} (q : Quadruple D) (qs : List (Quadruple D))
    → q.block ≡ some n
    → avoids n (q ∷ qs) ≡ true
    → ⊥
avoids-block n q qs b a = ground (arith, a, b)

module _ {D : Type 0} (d : Doubles D)
    (other : Quadruple D → (ℕ → Value D) → Option ((ℕ → Value D) × Flow)) where
  abbrev pub Env : Type 0
  Env = ℕ → Value D

  abbrev pub goes : Places D → ℕ → Flow → Option ℕ
  goes ps i falls = next_at ps i
  goes ps i (jumps t) = t

  -- From the block that is pointed to, a function runs until it is left, by a jump to no block or
  -- behind its last one.
  pub data Runs (ps : Places D) : Option ℕ → Env → Env → Type 0 where
    left : {env : Env} → Runs ps none env env
    through :
        {i : ℕ} {env env' final : Env} {flow : Flow}
        → exec d other (statements_at ps i) env ≡ some (env', flow)
        → Runs ps (goes ps i flow) env' final
        → Runs ps (some i) env final

  pub exec-append :
      (xs ys : List (Quadruple D)) (env : Env)
      → exec d other (xs ++ ys) env ≡ (exec d other xs env >>= λ r. go_on (exec d other ys) r.0 r.1)
  unfolding exec
  exec-append [] ys env = refl
  exec-append (x ∷ xs) ys env = elim (Option-cases (exec_one d other x env)) [
    | inl e ↦ rw (e, ◌>>=◌) refl
    | inr ((m, flow), e) ↦ elim (Flow-cases flow) [
      | inl f ↦ rw (e ∙ ap (λ x. some (m, x)) f, ◌>>=◌) (exec-append xs ys m)
      | inr (t, f) ↦ rw (e ∙ ap (λ x. some (m, x)) f, ◌>>=◌) refl
    ]
  ]

  -- What the pass relies on: the other statements jump to their block, or nowhere.
  abbrev pub JumpsToBlock : Type 0
  JumpsToBlock =
      (q : Quadruple D) (env env' : Env) (t : Option ℕ)
      → other q env ≡ some (env', jumps t)
      → t ≡ q.block

  pub flow_of-jumps : (o t : Option ℕ) (b : Bool) → flow_of o b ≡ jumps t → t ≡ o
  flow_of-jumps o t true h = cc
  flow_of-jumps o t false h = cc

  exec_one-jumps :
      (q : Quadruple D) (env env' : Env) (t : Option ℕ)
      → JumpsToBlock
      → exec_one d other q env ≡ some (env', jumps t)
      → t ≡ q.block
  unfolding exec_one
  exec_one-jumps q env env' t law h = elim (Bool-cases (same q.op Operator.goto)) [
    | inl goto ↦ let k = rw goto at h in cc
    | inr plain ↦ elim (Bool-cases (is_unary_branch q || same q.op Operator.nop)) [
      | inl branch ↦
          let (r, e, f) = >>=-eq-some (run d env q) _ (rw (plain, branch) at h) in
          flow_of-jumps q.block t r.1 (cc)
      | inr rest ↦ law q env env' t (rw (plain, rest) at h)
    ]
  ]

  pub exec-avoids :
      (n : ℕ) (qs : List (Quadruple D)) (env env' : Env)
      → JumpsToBlock
      → avoids n qs ≡ true
      → exec d other qs env ≡ some (env', jumps (some n))
      → ⊥
  unfolding exec
  exec-avoids n [] env env' law a h = cc
  exec-avoids n (q ∷ qs) env env' law a h =
      let ((m, flow), e, f) = >>=-eq-some (exec_one d other q env) _ h in
      elim (Flow-cases flow) [
        | inl g ↦
            exec-avoids n qs m env' law (ground (arith, a))
              (ap (go_on (exec d other qs) m) (sym g) ∙ f)
        | inr (t, g) ↦
            let k : t ≡ some n =
              (let j : some (m, jumps t) ≡ some (env', jumps (some n)) =
                  ap (go_on (exec d other qs) m) (sym g) ∙ f in
                cc) in
            let b : q.block ≡ some n =
              sym (exec_one-jumps q env m t law (e ∙ ap (λ x. some (m, x)) g)) ∙ k in
            avoids-block n q qs b a
      ]
