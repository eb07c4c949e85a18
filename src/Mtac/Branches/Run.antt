-- ===== src/Mtac/Branches/Run.antt =====
-- src/mtac/BranchOptimizations.cpp: the pass ends, and every block does what it did.
use eddic.Prelude.{
  both, ℕ, suc, ◌≡◌, refl, sym, ap, ◌∙◌, arith, Bool, true, false, ◌&&◌, ◌⊎◌, inl, inr, Option,
  none, some, List, [], ◌∷◌, ◌==◌, contains, if◌then◌else◌, Bool-cases, ==_iff, ◌>>=◌, >>=-eq-some,
  IsDistinct,
}
use eddic.Mtac.Operator.{Operator, same}
use eddic.Mtac.Quadruple.{
  Doubles, Quadruple, Argument, variable, double, int, text, transform_to_nop,
}
use eddic.Mtac.Meaning.{Value, run, effect}
use eddic.Mtac.Function.{
  Block, Function, first_index, indexes, remove_edge, edit_successors, edit_predecessors,
}
use eddic.Mtac.Function.Edges.{has, indexes-remove_edge}
use eddic.Mtac.Function.Merge.{edit_statements}
use eddic.Mtac.Branches.{
  Branching, Decision, unknown, taken, not_taken, decide, decide_branch, decided, goto_of,
  optimize_branch, optimize_statements, optimize_blocks, optimize_branches,
}
use eddic.Mtac.Branches.Flow.{
  Flow, falls, jumps, is_unary_branch, exec_one, exec, go_on, statements_of, are_complete,
  blocks_complete, is_some,
}
use eddic.Mtac.Branches.Taken.{flow-taken, flow-not_taken}

all_some {ℓ κ μ} :
    {A : Type ℓ} {B : Type κ} {C : Type μ} (a : Option A) (b : Option B) (c : Option C)
    → (is_some a && is_some b && is_some c) ≡ true
    → (x : A) × (a ≡ some x) × (is_some c ≡ true) × (is_some b ≡ true)
all_some (some a) (some b) (some c) h = (a, refl, refl, refl)
all_some none b c h = cc
all_some (some a) none c h = cc
all_some (some a) (some b) none h = cc

is_some-eq {ℓ} : {A : Type ℓ} (a : Option A) → is_some a ≡ true → (x : A) × (a ≡ some x)
is_some-eq none h = cc
is_some-eq (some a) h = (a, refl)

module _ {D : Type 0} where
  statements-edit_successors :
      (g : List ℕ → List ℕ) (p : ℕ) (bs : List (Block D)) (a : ℕ)
      → statements_of (edit_successors g p bs) a ≡ statements_of bs a
  unfolding edit_successors
  statements-edit_successors g p [] a = refl
  statements-edit_successors g p (b ∷ bs) a = ground (arith, statements-edit_successors g p bs a)

  statements-edit_predecessors :
      (g : List ℕ → List ℕ) (p : ℕ) (bs : List (Block D)) (a : ℕ)
      → statements_of (edit_predecessors g p bs) a ≡ statements_of bs a
  unfolding edit_predecessors
  statements-edit_predecessors g p [] a = refl
  statements-edit_predecessors g p (b ∷ bs) a =
      ground (arith, statements-edit_predecessors g p bs a)

  pub statements-remove_edge :
      (f t : ℕ) (bs : List (Block D)) (a : ℕ)
      → statements_of (remove_edge f t bs) a ≡ statements_of bs a
  unfolding remove_edge
  statements-remove_edge f t bs a =
      statements-edit_predecessors _ t (edit_successors _ f bs) a
      ∙ statements-edit_successors _ f bs a

  pub statements-edit_statements :
      (g : List (Quadruple D) → List (Quadruple D)) (p : ℕ) (bs : List (Block D)) (a : ℕ)
      → statements_of (edit_statements g p bs) a
        ≡ (if p == a && has bs a then g (statements_of bs a) else statements_of bs a)
  unfolding edit_statements
  statements-edit_statements g p [] a = ground arith
  statements-edit_statements g p (b ∷ bs) a = ground (arith, statements-edit_statements g p bs a)

  pub indexes-edit_statements :
      (g : List (Quadruple D) → List (Quadruple D)) (p : ℕ) (bs : List (Block D))
      → indexes (edit_statements g p bs) ≡ indexes bs
  unfolding edit_statements
  indexes-edit_statements g p [] = refl
  indexes-edit_statements g p (b ∷ bs) = ground (arith, indexes-edit_statements g p bs)

  decide-total : (x y : Decision) (a : Argument D) → (e : Decision) × (decide x y (some a) ≡ some e)
  unfolding decide
  decide-total x y (int n) = (if n == 0 then x else if n == 1 then y else unknown, refl)
  decide-total x y (variable v) = (unknown, refl)
  decide-total x y (double v) = (unknown, refl)
  decide-total x y (text t) = (unknown, refl)

  -- The blocks after the pass has edited some edges.
  record IsKept (bs cs : List (Block D)) : Type 0 where
    kept_indexes : indexes cs ≡ indexes bs
    kept_statements : (a : ℕ) → statements_of cs a ≡ statements_of bs a

  IsKept-remove_edge : (f t : ℕ) (bs : List (Block D)) → IsKept bs (remove_edge f t bs)
  IsKept-remove_edge f t bs = record {
    kept_indexes = indexes-remove_edge f t bs;
    kept_statements = statements-remove_edge f t bs;
  }

  module _ (d : Doubles D)
      (other : Quadruple D → (ℕ → Value D) → Option ((ℕ → Value D) × Flow)) where
    -- What is said of a statement or of a block that was rewritten.
    abbrev Same : (Quadruple D) → (Quadruple D) → Type 0
    Same q q' =
        (env : ℕ → Value D) (r : (ℕ → Value D) × Flow)
        → exec_one d other q env ≡ some r
        → exec_one d other q' env ≡ some r

    abbrev pub SameBlock : List (Quadruple D) → List (Quadruple D) → Type 0
    SameBlock qs qs' =
        (env : ℕ → Value D) (r : (ℕ → Value D) × Flow)
        → exec d other qs env ≡ some r
        → exec d other qs' env ≡ some r

    Same-taken : (uid : ℕ) (q : Quadruple D) → decide_branch q ≡ some taken → Same q (goto_of uid q)
    unfolding exec_one run decide_branch
    Same-taken uid q h env r k =
        ap some (sym (flow-taken d env q.arg2 q.result q.block (other q env) r q.op q.arg1 h k))

    Same-not_taken :
        (q : Quadruple D) → decide_branch q ≡ some not_taken → Same q (transform_to_nop q)
    unfolding exec_one run decide_branch effect
    Same-not_taken q h env r k =
        ap some (sym (flow-not_taken d env q.arg2 q.result q.block (other q env) r q.op q.arg1 h k))

    abbrev is_complete : Option ℕ → Quadruple D → Bool
    is_complete next q =
        if is_unary_branch q then is_some q.arg1 && is_some q.block && is_some next else true

    -- What the pass needs of a branch, once it has decided.
    branch_ready :
        (next : Option ℕ) (q : Quadruple D)
        → is_complete next q ≡ true
        → (decide_branch q ≡ some unknown)
          ⊎ ((e : Decision) × (decide_branch q ≡ some e)
              × (is_some next ≡ true)
              × (is_some q.block ≡ true))
    unfolding decide_branch
    branch_ready next q h = elim (Bool-cases (same q.op Operator.if_false_unary)) [
      | inl negative ↦
          let (a, e, n, t) = all_some q.arg1 q.block next (rw negative at h) in
          let (c, k) = decide-total taken not_taken a in inr (c, rw (negative, e) k, n, t)
      | inr other ↦ elim (Bool-cases (same q.op Operator.if_unary)) [
        | inl positive ↦
            let (a, e, n, t) = all_some q.arg1 q.block next (rw (other, positive) at h) in
            let (c, k) = decide-total not_taken taken a in inr (c, rw (other, positive, e) k, n, t)
        | inr plain ↦ inl (rw (other, plain) refl)
      ]
    ]

    -- The rewrite of a statement.
    record IsStep (q q' : Quadruple D) (s s' : Branching D) : Type 0 where
      step_same : Same q q'
      step_kept : IsKept s.blocks s'.blocks

    unchanged-IsStep : (q : Quadruple D) (s : Branching D) → IsStep q q s s
    unchanged-IsStep q s = record {
      step_same = λ env r e. e;
      step_kept = record { kept_indexes = refl; kept_statements = λ a. refl };
    }

    optimize_branch_lem :
        (p : ℕ) (next : Option ℕ) (q : Quadruple D) (s : Branching D)
        → is_complete next q ≡ true
        → (q' : Quadruple D) × (s' : Branching D) × (optimize_branch p next q s ≡ some (q', s'))
          × IsStep q q' s s'
    unfolding optimize_branch decided
    optimize_branch_lem p next q s h = elim (branch_ready next q h) [
      | inl e ↦ (q, s, rw (e, ◌>>=◌) refl, unchanged-IsStep q s)
      | inr (unknown, e, n, t) ↦ (q, s, rw (e, ◌>>=◌) refl, unchanged-IsStep q s)
      | inr (taken, e, n, t) ↦
          let (m, k) = is_some-eq next n in
          (
            goto_of (suc s.uid_counter) q,
            record s {
              blocks = remove_edge p m s.blocks;
              uid_counter = suc s.uid_counter;
              optimized = true;
            },
            rw (e, ◌>>=◌) (rw k refl),
            record {
              step_same = Same-taken (suc s.uid_counter) q e;
              step_kept = IsKept-remove_edge p m s.blocks;
            },
          )
      | inr (not_taken, e, n, t) ↦
          let (m, k) = is_some-eq q.block t in
          (
            transform_to_nop q,
            record s { blocks = remove_edge p m s.blocks; optimized = true },
            rw (e, ◌>>=◌) (rw k refl),
            record { step_same = Same-not_taken q e; step_kept = IsKept-remove_edge p m s.blocks },
          )
    ]

    go_on_same :
        (qs qs' : List (Quadruple D))
        → SameBlock qs qs'
        → (env : ℕ → Value D) (f : Flow) (r : (ℕ → Value D) × Flow)
        → go_on (exec d other qs) env f ≡ some r
        → go_on (exec d other qs') env f ≡ some r
    go_on_same qs qs' k env falls r e = k env r e
    go_on_same qs qs' k env (jumps t) r e = e

    SameBlock-cons :
        (q q' : Quadruple D) (qs qs' : List (Quadruple D))
        → Same q q'
        → SameBlock qs qs'
        → SameBlock (q ∷ qs) (q' ∷ qs')
    unfolding exec
    SameBlock-cons q q' qs qs' h k env r e =
        let (m, first, later) = >>=-eq-some (exec_one d other q env) _ e in
        rw (h env m first, ◌>>=◌) (go_on_same qs qs' k m.0 m.1 r later)

    optimize_statements_lem :
        (p : ℕ) (next : Option ℕ) (qs : List (Quadruple D)) (s : Branching D)
        → are_complete next qs ≡ true
        → (qs' : List (Quadruple D)) × (s' : Branching D) × (optimize_statements p next qs s
            ≡ some (qs', s'))
          × SameBlock qs qs'
          × IsKept s.blocks s'.blocks
    unfolding optimize_statements
    optimize_statements_lem p next [] s h =
        ([], s, refl, λ env r e. e, record { kept_indexes = refl; kept_statements = λ a. refl })
    optimize_statements_lem p next (q ∷ rest) s h =
        let (hq, hr) = both (is_complete next q) (are_complete next rest) h in
        let (q', s1, e1, r1) = optimize_branch_lem p next q s hq in
        let (qs', s2, e2, same, kept) = optimize_statements_lem p next rest s1 hr in
        (
          q' ∷ qs',
          s2,
          rw (e1, ◌>>=◌) (rw (e2, ◌>>=◌) refl),
          SameBlock-cons q q' rest qs' r1.step_same same,
          record {
            kept_indexes = kept.kept_indexes ∙ r1.step_kept.kept_indexes;
            kept_statements = λ a. kept.kept_statements a ∙ r1.step_kept.kept_statements a;
          },
        )

    -- What the loop over the blocks `rest` has done.
    record IsRun (rest : List (Block D)) (bs cs : List (Block D)) : Type 0 where
      run_indexes : indexes cs ≡ indexes bs
      run_blocks :
          (p : ℕ) → has rest p ≡ true → SameBlock (statements_of rest p) (statements_of cs p)
      run_others : (p : ℕ) → has rest p ≡ false → statements_of cs p ≡ statements_of bs p

    IsRun-cons :
        (b : Block D) (rest bs ms cs : List (Block D)) (qs : List (Quadruple D))
        → IsDistinct (indexes (b ∷ rest))
        → has bs b.index ≡ true
        → SameBlock b.statements qs
        → IsKept bs ms
        → IsRun rest (edit_statements (λ _. qs) b.index ms) cs
        → IsRun (b ∷ rest) bs cs
    IsRun-cons b rest bs ms cs qs d there same kept r =
        let e = indexes-edit_statements (λ _. qs) b.index ms in
        let edited = statements-edit_statements (λ _. qs) b.index ms in
        let here : has ms b.index ≡ true = ap (λ l. contains l b.index) kept.kept_indexes ∙ there in
        record {
          run_indexes = r.run_indexes ∙ e ∙ kept.kept_indexes;
          run_blocks = λ p m. elim (Bool-cases (b.index == p)) [
            | inl this ↦
                let i : b.index ≡ p = (==_iff b.index p).0 this in
                let absent : has rest p ≡ false = sym (ap (has rest) i) ∙ d.0 in
                let k : statements_of cs p ≡ qs =
                  r.run_others p absent ∙ edited p ∙ ground (arith, here, ap (has ms) i) in
                rw (this, k) same
            | inr other' ↦ rw other' (r.run_blocks p (ground (arith, m)))
          ];
          run_others = λ p m.
              r.run_others p (ground (arith, m))
              ∙ edited p
              ∙ ground (arith, m, kept.kept_statements p);
        }

    optimize_blocks_lem :
        (rest : List (Block D)) (s : Branching D)
        → IsDistinct (indexes rest)
        → ((p : ℕ) → has rest p ≡ true → has s.blocks p ≡ true)
        → blocks_complete rest ≡ true
        → (s' : Branching D) × (optimize_blocks rest s ≡ some s') × IsRun rest s.blocks s'.blocks
    unfolding optimize_blocks
    optimize_blocks_lem [] s d all h =
        (s, refl, record { run_indexes = refl; run_blocks = λ p m. cc; run_others = λ p m. refl })
    optimize_blocks_lem (b ∷ rest) s d all h =
        let (hb, hr) =
          both (are_complete (first_index rest) b.statements) (blocks_complete rest) h in
        let (qs, s1, e1, same, kept) =
          optimize_statements_lem b.index (first_index rest) b.statements s hb in
        let s2 = record s1 { blocks = edit_statements (λ _. qs) b.index s1.blocks } in
        let i : indexes s2.blocks ≡ indexes s.blocks =
          indexes-edit_statements (λ _. qs) b.index s1.blocks ∙ kept.kept_indexes in
        let (s3, e3, r) =
          optimize_blocks_lem rest s2 d.1
            (λ p m. ap (λ l. contains l p) i ∙ all p (ground (arith, m))) hr in
        (
          s3,
          rw (e1, ◌>>=◌) e3,
          IsRun-cons b rest s.blocks s1.blocks s3.blocks qs d (all b.index (ground arith)) same kept
              r,
        )

    -- If the blocks have indexes of their own, and every branch on one argument has it, a target, and a
    -- block behind its own, optimize_branches ends, and a block that runs, whatever the other statements
    -- do, runs in the function that it returns to the same store and goes on at the same block.
    pub optimize_branches_lem :
        (f : Function D) (uid_counter p : ℕ) (env : ℕ → Value D) (r : (ℕ → Value D) × Flow)
        → IsDistinct (indexes f.blocks)
        → blocks_complete f.blocks ≡ true
        → has f.blocks p ≡ true
        → exec d other (statements_of f.blocks p) env ≡ some r
        → (g : Function D) × (n : ℕ) × (o : Bool) × (optimize_branches f uid_counter
            ≡ some (g, n, o))
          × (exec d other (statements_of g.blocks p) env ≡ some r)
    unfolding optimize_branches
    optimize_branches_lem f uid_counter p env r distinct h there ran =
        let first : Branching D = record {
          blocks = f.blocks;
          uid_counter = uid_counter;
          optimized = false;
        } in
        let (s, e, k) = optimize_blocks_lem f.blocks first distinct (λ p m. m) h in
        (
          record f { blocks = s.blocks },
          s.uid_counter,
          s.optimized,
          rw (e, ◌>>=◌) refl,
          k.run_blocks p there env r ran,
        )
