-- ===== src/Mtac/Merging/Rounds.antt =====
-- src/mtac/merge_basic_blocks.cpp: every round of the loop takes a block away, or steps forward.
use eddic.Mtac.Merging.Steps.{one_if, IsStep, forward_lem, break_lem}
use eddic.Mtac.Merging.Visits.{Visited, try_merge_lem, visit_empty_lem}
use mathlib.Core.Path.{subst}
use eddic.Prelude.{
  ℕ, ◌≡◌, refl, sym, ap, ◌∙◌, arith, Bool, true, false, Option, none, some, List, [], ◌∷◌, ◌==◌,
  contains, Bool-cases, Option-cases, inl, inr, ==_iff, ◌>>=◌,
}
use eddic.Word.{minus_one}
use eddic.Mtac.Operator
use eddic.Mtac.Operator.{same, is_if, is_if_false}
use eddic.Mtac.Quadruple.{Quadruple}
use eddic.Mtac.Function.{Block, indexes, find, next_of, back, minus_two}
use eddic.Mtac.Function.Edges.{has}
use eddic.Mtac.Function.Merge.{edit_statements}
use eddic.Mtac.Merging.{
  Callees, Merging, is_safe_call, try_merge, drop_goto, visit_last, visit, moved, merge_round,
  size_no_nop, pop_back, same_pointer,
}
use eddic.Mtac.Merging.Places.{rest_from}
use eddic.Mtac.Merging.Code.{shape, shape-edit_statements}
use eddic.Mtac.Merging.Kept.{code}
use eddic.Mtac.Merging.Framed.{IsFramed, calls_found, all_blocks-find}
use eddic.Mtac.Merging.Used.{AllUsed, AllUsed-computed, Refines}
use eddic.Mtac.Merging.Refined.{IsRefined, IsRefined-trans, IsRefined-popped}
use eddic.Mtac.Merging.Removes.{pop_lem}

same_pointer-eq : (a b : Option ℕ) → same_pointer a b ≡ true → a ≡ b
same_pointer-eq none none h = refl
same_pointer-eq none (some q) h = cc
same_pointer-eq (some p) none h = cc
same_pointer-eq (some p) (some q) h = ap some ((==_iff p q).0 h)

module _ {D : Type 0} where
  -- A GOTO is dropped, and nothing that is measured changes.
  next_of-edit_statements :
      (g : List (Quadruple D) → List (Quadruple D)) (p i : ℕ) (bs : List (Block D))
      → next_of (edit_statements g p bs) i ≡ next_of bs i
  unfolding next_of edit_statements
  next_of-edit_statements g p i [] = refl
  next_of-edit_statements g p i (b ∷ []) = ground arith
  next_of-edit_statements g p i (b ∷ a ∷ bs) =
      ground (arith, next_of-edit_statements g p i (a ∷ bs))

  IsStep-after :
      (c : Callees) (s u t : Merging D) (i : ℕ) (at : Option ℕ)
      → indexes u.function.blocks ≡ indexes s.function.blocks
      → u.function.count ≡ s.function.count
      → u.optimized ≡ s.optimized
      → code (shape u.function.blocks) ≡ code (shape s.function.blocks)
      → IsRefined u.usage (shape s.function.blocks) (shape u.function.blocks)
      → IsStep c u i t at
      → IsStep c s i t at
  IsStep-after c s u t i at e n o k f r = record {
    step_framed = r.step_framed;
    step_code = r.step_code ∙ k;
    step_refined =
        IsRefined-trans u.usage t.usage (shape s.function.blocks) (shape u.function.blocks)
          (shape t.function.blocks) f r.step_refined;
    step_measure = omega (arith, r.step_measure, n, ap (λ is. rest_from is i) e);
    step_place = r.step_place;
    step_bound = omega (arith, r.step_bound, n, ap one_if o);
  }

  calls_found-back :
      (c : Callees) (q : Quadruple D) (qs : List (Quadruple D))
      → calls_found c qs ≡ true
      → back qs ≡ some q
      → same q.op Operator.call ≡ true
      → (b : Bool) × (is_safe_call c q ≡ some b)
  calls_found-back c q [] h e k = cc
  calls_found-back c q (x ∷ []) h e k =
      let f : x ≡ q = cc in
      elim (Option-cases (is_safe_call c q)) [
        | inl g ↦ absurd (let j = rw (f, k, g) at h in cc)
        | inr found ↦ found
      ]
  calls_found-back c q (x ∷ y ∷ qs) h e k = calls_found-back c q (y ∷ qs) (ground (arith, h)) e k

  back-cons :
      (x : Quadruple D) (xs : List (Quadruple D)) → (q : Quadruple D) × (back (x ∷ xs) ≡ some q)
  back-cons x [] = (x, refl)
  back-cons x (y ∷ xs) = back-cons y xs

  back-total :
      (qs : List (Quadruple D))
      → (size_no_nop qs == 0) ≡ false
      → (q : Quadruple D) × (back qs ≡ some q)
  unfolding size_no_nop
  back-total [] h = cc
  back-total (q ∷ qs) h = back-cons q qs

  pub find-index : (p : ℕ) (b : Block D) (bs : List (Block D)) → find bs p ≡ some b → b.index ≡ p
  unfolding find
  find-index p b [] f = cc
  find-index p b (a ∷ bs) f = elim (Bool-cases (a.index == p)) [
    | inl here ↦
        let e : a ≡ b = (let k = rw here at f in cc) in
        ap (λ (x : Block D). x.index) (sym e) ∙ (==_iff a.index p).0 here
    | inr there ↦ find-index p b bs (rw there at f)
  ]

  module _ (c : Callees) (s : Merging D) (i : ℕ) (b : Block D)
      (found : find s.function.blocks i ≡ some b) (there : has s.function.blocks i ≡ true)
      (v : IsFramed c s.function) (used : AllUsed s.usage (shape s.function.blocks))
      (not_entry : (minus_one == i) ≡ false) (not_exit : (minus_two == i) ≡ false) where
    visit_goto_lem :
        (q : Quadruple D)
        → back b.statements ≡ some q
        → same q.op Operator.goto ≡ true
        → q.block ≡ next_of s.function.blocks i
        → Visited c s i (try_merge c i (next_of s.function.blocks i) (drop_goto i s) true)
    unfolding drop_goto
    visit_goto_lem q last goto target =
        let bs = s.function.blocks in
        let (w, k, e) = pop_lem c i s.function b q v found last goto in
        let u = drop_goto i s in
        let all = AllUsed-computed u.function.blocks s.usage in
        let p =
          IsRefined-popped s.usage bs v.valid.distinct used i b q there found last goto target in
        let f : IsRefined u.usage (shape bs) (shape u.function.blocks) = record {
          same_runs =
              subst (Refines (shape bs)) (sym (shape-edit_statements pop_back i bs)) p.same_runs;
          all_used = all;
        } in
        let (t, m, done, r) =
          try_merge_lem c u i (ap (λ is. contains is i) e ∙ there) w all not_entry not_exit true in
        (
          t,
          m,
          ap (λ next. try_merge c i next u true) (sym (next_of-edit_statements pop_back i i bs))
              ∙ done,
          IsStep-after c s u t i (moved i t m) e refl refl k f r,
        )

    visit_last_lem :
        (q : Quadruple D)
        → back b.statements ≡ some q
        → Visited c s i (visit_last c i q (next_of s.function.blocks i) s)
    unfolding visit_last
    visit_last_lem q last = elim (Bool-cases (same q.op Operator.goto)) [
      | inl goto ↦ elim (Bool-cases (same_pointer q.block (next_of s.function.blocks i))) [
        | inl falls ↦
            rw (goto, falls)
              (visit_goto_lem q last goto
                (same_pointer-eq q.block (next_of s.function.blocks i) falls))
        | inr jumps ↦ rw (goto, jumps) (try_merge_lem c s i there v used not_entry not_exit false)
      ]
      | inr other ↦ elim (Bool-cases (same q.op Operator.call)) [
        | inl call ↦
            let known = all_blocks-find (calls_found c) i b s.function.blocks found v.known in
            let (safely, e) = calls_found-back c q b.statements known last call in
            rw (other, call, e, ◌>>=◌) (try_merge_lem c s i there v used not_entry not_exit safely)
        | inr plain ↦ rw (other, plain) (try_merge_lem c s i there v used not_entry not_exit _)
      ]
    ]

    visit_lem : Visited c s i (visit c b (next_of s.function.blocks i) s)
    unfolding visit
    visit_lem = elim (Bool-cases (size_no_nop b.statements == 0)) [
      | inl empty ↦
          rw (empty, find-index i b s.function.blocks found)
            (visit_empty_lem c s i there v used not_entry not_exit b found ((==_iff _ 0).0 empty))
      | inr some' ↦
          let (q, last) = back-total b.statements some' in
          rw (some', last, find-index i b s.function.blocks found, ◌>>=◌) (visit_last_lem q last)
    ]

  round_at :
      (c : Callees) (s : Merging D) (b : Block D)
      → IsFramed c s.function
      → AllUsed s.usage (shape s.function.blocks)
      → has s.function.blocks b.index ≡ true
      → find s.function.blocks b.index ≡ some b
      → (t : Merging D) × (at : Option ℕ) × (merge_round c b s ≡ some (t, at))
        × IsStep c s b.index t at
  unfolding merge_round
  round_at c s b v used there found = elim (Bool-cases (b.index == minus_one)) [
    | inl entry ↦ (
      s,
      next_of s.function.blocks b.index,
      rw entry refl,
      forward_lem c s b.index there v used (ground (arith, entry)),
    )
    | inr other ↦ elim (Bool-cases (b.index == minus_two)) [
      | inl exit ↦ (s, none, rw (other, exit) refl, break_lem c s b.index there v used)
      | inr plain ↦
          let (t, m, done, r) =
            visit_lem c s b.index b found there v used (ground (arith, other))
              (ground (arith, plain)) in
          (t, moved b.index t m, rw (other, plain) (rw (done, ◌>>=◌) refl), r)
    ]
  ]

  -- A round of the loop.
  pub merge_round_lem :
      (c : Callees) (s : Merging D) (i : ℕ) (b : Block D)
      → IsFramed c s.function
      → AllUsed s.usage (shape s.function.blocks)
      → has s.function.blocks i ≡ true
      → find s.function.blocks i ≡ some b
      → (t : Merging D) × (at : Option ℕ) × (merge_round c b s ≡ some (t, at)) × IsStep c s i t at
  merge_round_lem c s i b v used there found =
      let e = find-index i b s.function.blocks found in
      let (t, at, done, r) =
        round_at c s b v used (ap (has s.function.blocks) e ∙ there)
          (ap (find s.function.blocks) e ∙ found) in
      (t, at, done, subst (λ x. IsStep c s x t at) e r)
