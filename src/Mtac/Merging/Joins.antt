-- ===== src/Mtac/Merging/Joins.antt =====
-- src/mtac/merge_basic_blocks.cpp: every run of a function is a run once two blocks are merged.
use eddic.Prelude.{
  ℕ, ◌≡◌, ◌≢◌, refl, sym, ap, ◌∙◌, arith, true, false, Option, some, List, ◌++◌, ◌==◌, contains,
  Bool-cases, inl, inr, ==_iff, ◌>>=◌, IsDistinct,
}
use mathlib.Core.Path.{subst}
use eddic.Mtac.Quadruple.{Doubles, Quadruple}
use eddic.Mtac.Meaning.{Value}
use eddic.Mtac.Branches.Flow.{Flow, falls, jumps, exec}
use eddic.Mtac.Merging.Code.{Places, drop_place, edit_place}
use eddic.Mtac.Merging.Framed.{all_places}
use eddic.Mtac.Merging.Runs.{
  avoids, next_at, statements_at, index_list, past, Runs, left, through, goes, JumpsToBlock,
  exec-append, exec-avoids, Flow-cases, Env,
}
use eddic.Mtac.Merging.Lookups.{
  statements_at-drop, statements_at-edit, statements_at-edit_self, next_at-edit, next_at-drop,
  index_list-edit, avoids-at, past-absent,
}

differs : (i p : ℕ) → (i == p) ≡ false → i ≡ p → ⊥
differs i p h e = ground (arith, h, e)

module _ {D : Type 0} (d : Doubles D)
    (other : Quadruple D → (ℕ → Value D) → Option ((ℕ → Value D) × Flow))
    (law : JumpsToBlock d other) (p n : ℕ) (ps : Places D) (distinct : IsDistinct (index_list ps))
    (there : contains (index_list ps) p ≡ true) (behind : next_at ps p ≡ some n)
    (only : (i : ℕ) → next_at ps i ≡ some n → i ≡ p) (apart : (p == n) ≡ false)
    (unused : all_places (avoids n) ps ≡ true) where
  abbrev joined : Places D
  joined = drop_place n (edit_place (λ qs. qs ++ statements_at ps n) p ps)

  -- A block that is neither of the two.
  joined_statements :
      (i : ℕ) → (i == n) ≡ false → (i == p) ≡ false → statements_at joined i ≡ statements_at ps i
  joined_statements i hn hp =
      statements_at-drop n i (edit_place (λ qs. qs ++ statements_at ps n) p ps) hn
      ∙ statements_at-edit (λ qs. qs ++ statements_at ps n) p i ps hp

  joined_self : statements_at joined p ≡ statements_at ps p ++ statements_at ps n
  joined_self =
      statements_at-drop n p (edit_place (λ qs. qs ++ statements_at ps n) p ps) apart
      ∙ statements_at-edit_self (λ qs. qs ++ statements_at ps n) p ps there

  joined_next : (i : ℕ) → (i == n) ≡ false → next_at joined i ≡ past n (next_at ps i) (next_at ps n)
  joined_next i hn =
      let g = λ (qs : List (Quadruple D)). qs ++ statements_at ps n in
      next_at-drop n i (edit_place g p ps) (rw (index_list-edit g p ps) distinct) hn
      ∙ ap (λ o. past n o (next_at (edit_place g p ps) n)) (next_at-edit g p i ps)
      ∙ ap (λ o. past n (next_at ps i) o) (next_at-edit g p n ps)

  joined_next_self : next_at joined p ≡ next_at ps n
  joined_next_self = joined_next p apart ∙ rw behind (ground arith)

  joined_next_other :
      (i : ℕ) → (i == n) ≡ false → (i == p) ≡ false → next_at joined i ≡ next_at ps i
  joined_next_other i hn hp =
      joined_next i hn
      ∙ past-absent n (next_at ps i) (next_at ps n) (λ m e. elim (Bool-cases (m == n)) [
        | inl same ↦ let k = only i (e ∙ ap some ((==_iff m n).0 same)) in absurd (differs i p hp k)
        | inr o ↦ o
      ])

  goes_other :
      (i : ℕ) (flow : Flow)
      → (i == n) ≡ false
      → (i == p) ≡ false
      → goes d other joined i flow ≡ goes d other ps i flow
  goes_other i falls hn hp = joined_next_other i hn hp
  goes_other i (jumps t) hn hp = refl

  goes_self : (flow : Flow) → goes d other joined p flow ≡ goes d other ps n flow
  goes_self falls = joined_next_self
  goes_self (jumps t) = refl

  -- No block but `p` goes on at `n`.
  goes_apart :
      (i : ℕ) (env env' : Env d other) (flow : Flow)
      → exec d other (statements_at ps i) env ≡ some (env', flow)
      → (i == p) ≡ false
      → goes d other ps i flow ≢ some n
  goes_apart i env env' falls e hp g = differs i p hp (only i g)
  goes_apart i env env' (jumps t) e hp g =
      exec-avoids d other n (statements_at ps i) env env' law
        (avoids-at (avoids n) i ps refl unused) (e ∙ ap (λ o. some (env', jumps o)) g)

  through_other :
      (i : ℕ) (env env' final : Env d other) (flow : Flow)
      → (i == n) ≡ false
      → (i == p) ≡ false
      → exec d other (statements_at ps i) env ≡ some (env', flow)
      → Runs d other joined (goes d other ps i flow) env' final
      → Runs d other joined (some i) env final
  through_other i env env' final flow hn hp e r =
      through (ap (λ qs. exec d other qs env) (joined_statements i hn hp) ∙ e)
        (subst (λ o. Runs d other joined o env' final) (sym (goes_other i flow hn hp)) r)

  -- The block `p` jumps.
  through_jump :
      (env env' final : Env d other) (t : Option ℕ)
      → exec d other (statements_at ps p) env ≡ some (env', jumps t)
      → Runs d other joined t env' final
      → Runs d other joined (some p) env final
  through_jump env env' final t e r =
      through {flow = jumps t}
        (ap (λ qs. exec d other qs env) joined_self
          ∙ exec-append d other (statements_at ps p) (statements_at ps n) env
          ∙ rw (e, ◌>>=◌) refl)
        r

  -- The block `p` falls through to `n`.
  through_both :
      (env env' last final : Env d other) (flow : Flow)
      → exec d other (statements_at ps p) env ≡ some (env', falls)
      → exec d other (statements_at ps n) env' ≡ some (last, flow)
      → Runs d other joined (goes d other ps n flow) last final
      → Runs d other joined (some p) env final
  through_both env env' last final flow e f r =
      through {flow = flow}
        (ap (λ qs. exec d other qs env) joined_self
          ∙ exec-append d other (statements_at ps p) (statements_at ps n) env
          ∙ rw (e, ◌>>=◌) f)
        (subst (λ o. Runs d other joined o last final) (sym (goes_self flow)) r)

  -- At `p` itself.
  through_self :
      (i : ℕ) (env env' final : Env d other) (flow : Flow)
      → i ≡ p
      → exec d other (statements_at ps i) env ≡ some (env', flow)
      → (goes d other ps i flow ≢ some n → Runs d other joined (goes d other ps i flow) env' final)
      → ((before : Env d other)
          → goes d other ps i flow ≡ some n
          → exec d other (statements_at ps p) before ≡ some (env', falls)
          → Runs d other joined (some p) before final)
      → Runs d other joined (some p) env final
  through_self i env env' final flow k e on after =
      let here : exec d other (statements_at ps p) env ≡ some (env', flow) =
        ap (λ x. exec d other (statements_at ps x) env) (sym k) ∙ e in
      elim (Flow-cases flow) [
        | inl f ↦
            after env (ap (goes d other ps i) f ∙ ap (next_at ps) k ∙ behind)
              (here ∙ ap (λ x. some (env', x)) f)
        | inr (t, f) ↦
            let jump = here ∙ ap (λ x. some (env', x)) f in
            let target : goes d other ps i flow ≡ t = ap (goes d other ps i) f in
            through_jump env env' final t jump (
              subst (λ o. Runs d other joined o env' final) target
                (on (λ g.
                  exec-avoids d other n (statements_at ps p) env env' law
                    (avoids-at (avoids n) p ps refl unused)
                    (jump ∙ ap (λ o. some (env', jumps o)) (sym target ∙ g)))))
      ]

  Runs-joined_at :
      (at : Option ℕ) (env final : Env d other)
      → Runs d other ps at env final
      → (at ≢ some n → Runs d other joined at env final)
        × ((before : Env d other)
            → at ≡ some n
            → exec d other (statements_at ps p) before ≡ some (env, falls)
            → Runs d other joined (some p) before final)
  Runs-joined_at at env final left = (λ h. left, λ before e x. cc)
  Runs-joined_at at env final (through {i} {env'} {flow} e r) =
      let (on, after) = Runs-joined_at (goes d other ps i flow) env' final r in
      (
        λ h. elim (Bool-cases (i == n)) [
          | inl same ↦ absurd (h (ap some ((==_iff i n).0 same)))
          | inr hn ↦ elim (Bool-cases (i == p)) [
            | inl self ↦
                let k = (==_iff i p).0 self in
                subst (λ x. Runs d other joined (some x) env final) (sym k)
                  (through_self i env env' final flow k e on after)
            | inr hp ↦
                through_other i env env' final flow hn hp e (on (goes_apart i env env' flow e hp))
          ]
        ],
        λ before g x.
            let k : i ≡ n = cc in
            let hp : (i == p) ≡ false = ground (arith, k, apart) in
            through_both before env env' final flow x
              (ap (λ y. exec d other (statements_at ps y) env) (sym k) ∙ e)
              (subst (λ y. Runs d other joined (goes d other ps y flow) env' final) k
                (on (goes_apart i env env' flow e hp))),
      )

  -- A run that does not start at `n` is one of the function where it is merged in.
  pub Runs-joined :
      (i : ℕ) (env final : Env d other)
      → i ≢ n
      → Runs d other ps (some i) env final
      → Runs d other joined (some i) env final
  Runs-joined i env final h r = (Runs-joined_at (some i) env final r).0 (λ e. h (cc))
