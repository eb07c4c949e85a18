-- ===== src/Mtac/Merging/Popped.antt =====
-- src/mtac/merge_basic_blocks.cpp: every run of a function is a run once a GOTO to the next block is
-- dropped.
use eddic.Prelude.{
  ℕ, ◌≡◌, ◌⊎◌, refl, sym, ap, ◌∙◌, true, Option, some, List, [], ◌∷◌, ◌==◌, contains, Bool-cases,
  inl, inr, ==_iff, ◌>>=◌, >>=-eq-some,
}
use mathlib.Core.Path.{subst}
use eddic.Mtac.Operator
use eddic.Mtac.Operator.{same}
use eddic.Mtac.Quadruple.{Doubles, Quadruple}
use eddic.Mtac.Meaning.{Value}
use eddic.Mtac.Function.{back}
use eddic.Mtac.Branches.Flow.{Flow, falls, jumps, go_on, exec_one, exec}
use eddic.Mtac.Merging.{pop_back}
use eddic.Mtac.Merging.Code.{Places, edit_place}
use eddic.Mtac.Merging.Runs.{
  next_at, statements_at, index_list, Runs, left, through, goes, Flow-cases, Env,
}
use eddic.Mtac.Merging.Lookups.{statements_at-edit, statements_at-edit_self, next_at-edit}

module _ {D : Type 0} (d : Doubles D)
    (other : Quadruple D → (ℕ → Value D) → Option ((ℕ → Value D) × Flow)) (q : Quadruple D)
    (goto : same q.op Operator.goto ≡ true) where
  exec_one-goto : (env : Env d other) → exec_one d other q env ≡ some (env, jumps q.block)
  unfolding exec_one
  exec_one-goto env = rw goto refl

  -- Without the GOTO the statements fall through where they came to it.
  exec-popped :
      (qs : List (Quadruple D)) (env env' : Env d other) (flow : Flow)
      → back qs ≡ some q
      → exec d other qs env ≡ some (env', flow)
      → (exec d other (pop_back qs) env ≡ some (env', flow))
        ⊎ ((exec d other (pop_back qs) env ≡ some (env', falls)) × (flow ≡ jumps q.block))
  unfolding exec
  exec-popped [] env env' flow b h = cc
  exec-popped (x ∷ []) env env' flow b h =
      let e : x ≡ q = cc in
      let k = ap (λ y. exec_one d other y env) e ∙ exec_one-goto env in
      let m : some (env, jumps q.block) ≡ some (env', flow) = rw (k, ◌>>=◌) at h in inr (cc, cc)
  exec-popped (x ∷ y ∷ qs) env env' flow b h =
      let ((m, f), e, k) = >>=-eq-some (exec_one d other x env) _ h in
      elim (Flow-cases f) [
        | inl g ↦
            let j = ap (go_on (exec d other (y ∷ qs)) m) (sym g) ∙ k in
            let one = e ∙ ap (λ z. some (m, z)) g in
            elim (exec-popped (y ∷ qs) m env' flow b j) [
              | inl same' ↦ inl (rw (one, ◌>>=◌) same')
              | inr (short, to) ↦ inr (rw (one, ◌>>=◌) short, to)
            ]
        | inr (t, g) ↦
            let j = ap (go_on (exec d other (y ∷ qs)) m) (sym g) ∙ k in
            let one = e ∙ ap (λ z. some (m, z)) g in inl (rw (one, ◌>>=◌) j)
      ]

  module _ (p : ℕ) (ps : Places D) (there : contains (index_list ps) p ≡ true)
      (last : back (statements_at ps p) ≡ some q) (target : q.block ≡ next_at ps p) where
    abbrev popped : Places D
    popped = edit_place pop_back p ps

    goes-popped : (i : ℕ) (flow : Flow) → goes d other popped i flow ≡ goes d other ps i flow
    goes-popped i falls = next_at-edit pop_back p i ps
    goes-popped i (jumps t) = refl

    popped_self :
        (i : ℕ) (env env' : Env d other) (flow : Flow)
        → i ≡ p
        → exec d other (statements_at ps i) env ≡ some (env', flow)
        → (flow' : Flow) × (exec d other (statements_at popped i) env ≡ some (env', flow'))
          × (goes d other popped i flow' ≡ goes d other ps i flow)
    popped_self i env env' flow x e =
        let s = statements_at-edit_self pop_back p ps there in
        let run_at = λ (j : ℕ). exec d other (statements_at ps j) env in
        let here : exec d other (statements_at ps p) env ≡ some (env', flow) =
          ap run_at (sym x) ∙ e in
        let moved =
          ap (λ j. exec d other (statements_at popped j) env) x
          ∙ ap (λ qs. exec d other qs env) s in
        elim (exec-popped (statements_at ps p) env env' flow last here) [
          | inl same' ↦ (flow, moved ∙ same', goes-popped i flow)
          | inr (short, to) ↦ (
            falls,
            moved ∙ short,
            goes-popped i falls ∙ ap (next_at ps) x ∙ sym target ∙ ap (goes d other ps i) (sym to),
          )
        ]

    pub Runs-popped :
        (at : Option ℕ) (env final : Env d other)
        → Runs d other ps at env final
        → Runs d other popped at env final
    Runs-popped at env final left = left
    Runs-popped at env final (through {i} {env'} {flow} e r) =
        let k = Runs-popped (goes d other ps i flow) env' final r in
        elim (Bool-cases (i == p)) [
          | inl here ↦
              let (flow', f, g) = popped_self i env env' flow ((==_iff i p).0 here) e in
              through {flow = flow'} f (subst (λ o. Runs d other popped o env' final) (sym g) k)
          | inr apart ↦
              through {flow = flow}
                (ap (λ qs. exec d other qs env) (statements_at-edit pop_back p i ps apart) ∙ e)
                (subst (λ o. Runs d other popped o env' final) (sym (goes-popped i flow)) k)
        ]
