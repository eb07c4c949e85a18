-- ===== src/Mtac/Merging/Erased.antt =====
-- src/mtac/merge_basic_blocks.cpp: every run of a function is a run once a block of NOP is removed that no
-- jump leads to.
use eddic.Prelude.{
  ℕ, ◌≡◌, refl, sym, ap, ◌∙◌, arith, Bool, true, false, Option, none, some, List, [], ◌∷◌, ◌==◌,
  Bool-cases, inl, inr, ==_iff, ◌>>=◌, >>=-eq-some, IsDistinct,
}
use mathlib.Core.Path.{subst}
use eddic.Mtac.Operator
use eddic.Mtac.Operator.{Operator, same}
use eddic.Mtac.Quadruple.{Doubles, Quadruple, Argument}
use eddic.Mtac.Meaning.{
  Value, integer, real, address, read, effect, commit, run, unary_op, binary_op,
}
use eddic.Mtac.Branches.Flow.{Flow, falls, jumps, flow_of, go_on, exec_one, exec}
use eddic.Mtac.Merging.{size_no_nop}
use eddic.Mtac.Merging.Code.{Places, drop_place}
use eddic.Mtac.Merging.Framed.{all_places}
use eddic.Mtac.Merging.Runs.{
  avoids, next_at, statements_at, index_list, past, Runs, left, through, goes, JumpsToBlock,
  exec-avoids, Env,
}
use eddic.Mtac.Merging.Lookups.{statements_at-drop, next_at-drop, avoids-at, past-absent}

past_twice : (n : ℕ) (o : Option ℕ) → past n o o ≡ o
past_twice n none = refl
past_twice n (some m) = ground arith

is_nop : (op : Operator) → same op Operator.nop ≡ true → op ≡ Operator.nop
unfolding Operator.position
is_nop Operator.nop h = refl
is_nop _ h = cc

module _ {D : Type 0} (d : Doubles D) where
  binary-nop : (v w : Value D) → binary_op d Operator.nop v w ≡ none
  unfolding binary_op
  binary-nop (integer a) (integer b) = refl
  binary-nop (integer a) (real y) = refl
  binary-nop (integer a) (address t) = refl
  binary-nop (real x) (integer b) = refl
  binary-nop (real x) (real y) = refl
  binary-nop (real x) (address t) = refl
  binary-nop (address s) _ = refl

  -- A NOP that has a meaning changes nothing.
  commits-nop :
      (env : ℕ → Value D) (a b : Option (Argument D)) (result : Option ℕ) (s : (ℕ → Value D) × Bool)
      → (effect d env Operator.nop a b >>= commit d env result) ≡ some s
      → s ≡ (env, false)
  unfolding effect unary_op
  commits-nop env none none none s h = cc
  commits-nop env none none (some r) s h = cc
  commits-nop env none (some b) result s h = cc
  commits-nop env (some a) none result s h = cc
  commits-nop env (some a) (some b) result s h =
      let k = rw (binary-nop (read env a) (read env b)) at h in cc

  module _ (other : Quadruple D → (ℕ → Value D) → Option ((ℕ → Value D) × Flow)) where
    exec_one-nop :
        (q : Quadruple D) (env : Env d other) (r : Env d other × Flow)
        → same q.op Operator.nop ≡ true
        → exec_one d other q env ≡ some r
        → r ≡ (env, falls)
    unfolding exec_one run Operator.position
    exec_one-nop q env r h k =
        let e = is_nop q.op h in
        let (s, m, f) =
          >>=-eq-some (effect d env Operator.nop q.arg1 q.arg2 >>= commit d env q.result)
            (λ s. some (s.0, flow_of q.block s.1)) (rw e at k) in
        let g = commits-nop env q.arg1 q.arg2 q.result s m in
        let j : (s.0, flow_of q.block s.1) ≡ r = cc in
        sym j ∙ ap (λ (t : Env d other × Bool). (t.0, flow_of q.block t.1)) g

    exec-empty :
        (qs : List (Quadruple D)) (env : Env d other) (r : Env d other × Flow)
        → size_no_nop qs ≡ 0
        → exec d other qs env ≡ some r
        → r ≡ (env, falls)
    unfolding exec size_no_nop
    exec-empty [] env r z h = cc
    exec-empty (q ∷ qs) env r z h =
        let (s, e, f) = >>=-eq-some (exec_one d other q env) _ h in
        let g = exec_one-nop q env s (ground (arith, z)) e in
        exec-empty qs env r (ground (arith, z))
          (ap (λ (t : Env d other × Flow). go_on (exec d other qs) t.0 t.1) (sym g) ∙ f)

    module _ (law : JumpsToBlock d other) (p : ℕ) (ps : Places D)
        (distinct : IsDistinct (index_list ps)) (empty : size_no_nop (statements_at ps p) ≡ 0)
        (unused : all_places (avoids p) ps ≡ true) where
      -- Where control goes on, once `p` is away.
      abbrev round_off : Option ℕ → Option ℕ
      round_off o = past p o (next_at ps p)

      goes_off :
          (i : ℕ) (env env' : Env d other) (flow : Flow)
          → (i == p) ≡ false
          → exec d other (statements_at ps i) env ≡ some (env', flow)
          → goes d other (drop_place p ps) i flow ≡ round_off (goes d other ps i flow)
      goes_off i env env' falls h e = next_at-drop p i ps distinct h
      goes_off i env env' (jumps t) h e = sym (
          past-absent p t (next_at ps p) (λ m k. elim (Bool-cases (m == p)) [
            | inl same' ↦ absurd (
                exec-avoids d other p (statements_at ps i) env env' law
                  (avoids-at (avoids p) i ps refl unused)
                  (e ∙ ap (λ o. some (env', jumps o)) (k ∙ ap some ((==_iff m p).0 same'))))
            | inr apart ↦ apart
          ]))

      Runs-round_off :
          (at : Option ℕ) (env final : Env d other)
          → Runs d other ps at env final
          → Runs d other (drop_place p ps) (round_off at) env final
      Runs-round_off at env final left = left
      Runs-round_off at env final (through {i} {env'} {flow} e r) =
          let k = Runs-round_off (goes d other ps i flow) env' final r in
          elim (Bool-cases (i == p)) [
            | inl here ↦
                let x = (==_iff i p).0 here in
                let g =
                  exec-empty (statements_at ps p) env (env', flow) empty
                    (ap (λ y. exec d other (statements_at ps y) env) (sym x) ∙ e) in
                let o : goes d other ps i flow ≡ next_at ps p =
                  ap (λ (t : Env d other × Flow). goes d other ps i t.1) g ∙ ap (next_at ps) x in
                rw here (
                  subst (λ y. Runs d other (drop_place p ps) y env final)
                    (ap round_off o ∙ past_twice p (next_at ps p))
                    (subst
                      (λ (t : Env d other × Flow).
                        Runs d other (drop_place p ps) (round_off (goes d other ps i flow)) t.0
                          final)
                      g k))
            | inr there ↦ rw there (
                through (ap (λ qs. exec d other qs env) (statements_at-drop p i ps there) ∙ e) (
                  subst (λ o. Runs d other (drop_place p ps) o env' final)
                    (sym (goes_off i env env' flow there e)) k))
          ]

      -- A run that does not start at `p` is one of the function without it.
      pub Runs-erased :
          (i : ℕ) (env final : Env d other)
          → (i == p) ≡ false
          → Runs d other ps (some i) env final
          → Runs d other (drop_place p ps) (some i) env final
      Runs-erased i env final h r =
          let e : round_off (some i) ≡ some i = rw h refl in
          subst (λ o. Runs d other (drop_place p ps) o env final) e
            (Runs-round_off (some i) env final r)
