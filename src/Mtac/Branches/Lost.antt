-- ===== src/Mtac/Branches/Lost.antt =====
-- src/mtac/BranchOptimizations.cpp: a jump to the block behind it loses its edge.
use mathlib.Core.Path.{subst}
use eddic.Prelude.{
  ℕ, suc, ◌≡◌, ◌≤◌, refl, sym, ap, ◌∙◌, arith, Bool, true, false, inl, inr, Option, none, some,
  List, [], ◌∷◌, ◌==◌, contains, Bool-cases, ==_iff, ◌>>=◌, >>=-eq-some, IsDistinct,
}
use eddic.Mtac.Operator
use eddic.Mtac.Operator.{Operator, same}
use eddic.Mtac.Quadruple.{Quadruple}
use eddic.Mtac.Function.{Block, Function, first_index, indexes, remove_edge}
use eddic.Mtac.Function.Edges.{has, indexes-remove_edge}
use eddic.Mtac.Function.Merge.{edit_statements}
use eddic.Mtac.Branches.{
  Branching, Decision, unknown, taken, not_taken, decide_branch, decided, goto_of, optimize_branch,
  optimize_statements, optimize_blocks, optimize_branches,
}
use eddic.Mtac.Branches.Flow.{statements_of}
use eddic.Mtac.Function.{next_of, back}
use eddic.Mtac.Function.Edges.{out, count, out-remove_edge}
use eddic.Mtac.Function.Merged.{edit_statements-same}
use eddic.Mtac.Branches.Run.{statements-remove_edge, statements-edit_statements}

module _ {D : Type 0} where
  -- the parts of a result, to take equations apart
  abbrev blocks_or : List (Block D) → Option (Quadruple D × Branching D) → List (Block D)
  blocks_or bs none = bs
  blocks_or bs (some (q, s)) = s.blocks

  abbrev statement_or : Quadruple D → Option (Quadruple D × Branching D) → Quadruple D
  statement_or q none = q
  statement_or q (some (r, s)) = r

  abbrev function_or : Function D → Option (Function D × ℕ × Bool) → Function D
  function_or f none = f
  function_or f (some (g, n, o)) = g

  -- The pass only takes edges away.
  record IsFewer (bs cs : List (Block D)) : Type 0 where
    fewer_out : (a b : ℕ) → out cs a b ≤ out bs a b
    fewer_indexes : indexes cs ≡ indexes bs
    fewer_statements : (a : ℕ) → statements_of cs a ≡ statements_of bs a

  IsFewer-remove_edge : (f t : ℕ) (bs : List (Block D)) → IsFewer bs (remove_edge f t bs)
  IsFewer-remove_edge f t bs = record {
    fewer_out = λ a b. ground (arith, out-remove_edge f t bs a b);
    fewer_indexes = indexes-remove_edge f t bs;
    fewer_statements = statements-remove_edge f t bs;
  }

  IsFewer-refl : (bs : List (Block D)) → IsFewer bs bs
  IsFewer-refl bs = record {
    fewer_out = λ a b. omega arith;
    fewer_indexes = refl;
    fewer_statements = λ a. refl;
  }

  IsFewer-trans : (bs cs ds : List (Block D)) → IsFewer bs cs → IsFewer cs ds → IsFewer bs ds
  IsFewer-trans bs cs ds h k = record {
    fewer_out = λ a b. omega (arith, h.fewer_out a b, k.fewer_out a b);
    fewer_indexes = k.fewer_indexes ∙ h.fewer_indexes;
    fewer_statements = λ a. k.fewer_statements a ∙ h.fewer_statements a;
  }

  decided-IsFewer :
      (p : ℕ) (next : Option ℕ) (q q' : Quadruple D) (s s' : Branching D) (e : Decision)
      → decided p next q s e ≡ some (q', s')
      → IsFewer s.blocks s'.blocks
  unfolding decided
  decided-IsFewer p next q q' s s' unknown h =
      let k : s ≡ s' = cc in rw (← k) (IsFewer-refl s.blocks)
  decided-IsFewer p (some n) q q' s s' taken h =
      let k : remove_edge p n s.blocks ≡ s'.blocks =
        ap (λ (o : Option (Quadruple D × Branching D)). blocks_or s.blocks o) h in
      rw (← k) (IsFewer-remove_edge p n s.blocks)
  decided-IsFewer p none q q' s s' taken h = cc
  decided-IsFewer p next q q' s s' not_taken h =
      let (b, e, k) = >>=-eq-some q.block _ h in
      let m : remove_edge p b s.blocks ≡ s'.blocks =
        ap (λ (o : Option (Quadruple D × Branching D)). blocks_or s.blocks o) k in
      rw (← m) (IsFewer-remove_edge p b s.blocks)

  optimize_branch-IsFewer :
      (p : ℕ) (next : Option ℕ) (q q' : Quadruple D) (s s' : Branching D)
      → optimize_branch p next q s ≡ some (q', s')
      → IsFewer s.blocks s'.blocks
  unfolding optimize_branch
  optimize_branch-IsFewer p next q q' s s' h =
      let (e, k, m) = >>=-eq-some (decide_branch q) _ h in decided-IsFewer p next q q' s s' e m

  -- A jump that is taken, and leads to the next block.
  record IsLost (p t : ℕ) (bs : List (Block D)) (last : Option (Quadruple D)) : Type 0 where
    lost_edge : out bs p t ≡ 0
    lost_jump :
        (q : Quadruple D) × (last ≡ some q) × (same q.op Operator.goto ≡ true) × (q.block ≡ some t)

  optimize_branch-IsLost :
      (p t : ℕ) (q q' : Quadruple D) (s s' : Branching D)
      → decide_branch q ≡ some taken
      → q.block ≡ some t
      → optimize_branch p (some t) q s ≡ some (q', s')
      → IsLost p t s'.blocks (some q')
  unfolding optimize_branch decided Operator.position
  optimize_branch-IsLost p t q q' s s' e b h =
      let k = rw (e, ◌>>=◌) at h in
      let m : remove_edge p t s.blocks ≡ s'.blocks =
        ap (λ (o : Option (Quadruple D × Branching D)). blocks_or s.blocks o) k in
      let n : goto_of (suc s.uid_counter) q ≡ q' =
        ap (λ (o : Option (Quadruple D × Branching D)). statement_or q o) k in
      record {
        lost_edge = ap (λ bs. out bs p t) (sym m) ∙ out-remove_edge p t s.blocks p t ∙ ground arith;
        lost_jump = (goto_of (suc s.uid_counter) q, ap some (sym n), refl, b);
      }

  optimize_statements-IsFewer :
      (p : ℕ) (next : Option ℕ) (qs qs' : List (Quadruple D)) (s s' : Branching D)
      → optimize_statements p next qs s ≡ some (qs', s')
      → IsFewer s.blocks s'.blocks
  unfolding optimize_statements
  optimize_statements-IsFewer p next [] qs' s s' h =
      let k : s ≡ s' = cc in rw (← k) (IsFewer-refl s.blocks)
  optimize_statements-IsFewer p next (q ∷ rest) qs' s s' h =
      let ((q1, s1), e1, h1) = >>=-eq-some (optimize_branch p next q s) _ h in
      let ((r2, s2), e2, h2) = >>=-eq-some (optimize_statements p next rest s1) _ h1 in
      let k : s2 ≡ s' = cc in
      rw (← k) (
        IsFewer-trans s.blocks s1.blocks s2.blocks (optimize_branch-IsFewer p next q q1 s s1 e1)
          (optimize_statements-IsFewer p next rest r2 s1 s2 e2))

  back-cons :
      (x q : Quadruple D) (xs : List (Quadruple D)) → back xs ≡ some q → back (x ∷ xs) ≡ back xs
  back-cons x q [] h = cc
  back-cons x q (y ∷ ys) h = refl

  optimize_statements-IsLost :
      (p t : ℕ) (q : Quadruple D) (qs qs' : List (Quadruple D)) (s s' : Branching D)
      → back qs ≡ some q
      → decide_branch q ≡ some taken
      → q.block ≡ some t
      → optimize_statements p (some t) qs s ≡ some (qs', s')
      → IsLost p t s'.blocks (back qs')
  unfolding optimize_statements
  optimize_statements-IsLost p t q [] qs' s s' l e b h = cc
  optimize_statements-IsLost p t q (x ∷ []) qs' s s' l e b h =
      let ((q1, s1), e1, h1) = >>=-eq-some (optimize_branch p (some t) x s) _ h in
      let i : q ≡ x = cc in
      let r : IsLost p t s1.blocks (some q1) =
        optimize_branch-IsLost p t x q1 s s1 (ap decide_branch (sym i) ∙ e)
          (ap (λ (y : Quadruple D). y.block) (sym i) ∙ b) e1 in
      let k : s1 ≡ s' = cc in let m : q1 ∷ [] ≡ qs' = cc in rw (← k, ← m) r
  optimize_statements-IsLost p t q (x ∷ y ∷ rest) qs' s s' l e b h =
      let ((q1, s1), e1, h1) = >>=-eq-some (optimize_branch p (some t) x s) _ h in
      let ((r2, s2), e2, h2) = >>=-eq-some (optimize_statements p (some t) (y ∷ rest) s1) _ h1 in
      let r = optimize_statements-IsLost p t q (y ∷ rest) r2 s1 s2 l e b e2 in
      let k : s2 ≡ s' = cc in
      let m : q1 ∷ r2 ≡ qs' = cc in
      let (j, last, g, u) = r.lost_jump in
      rw (← k, ← m)
        (record { lost_edge = r.lost_edge; lost_jump = (j, back-cons q1 j r2 last ∙ last, g, u) })

  -- What the blocks that follow do to one that they are not.
  record IsLater (rest bs cs : List (Block D)) : Type 0 where
    later_out : (a b : ℕ) → out cs a b ≤ out bs a b
    later_indexes : indexes cs ≡ indexes bs
    later_others : (p : ℕ) → has rest p ≡ false → statements_of cs p ≡ statements_of bs p

  IsLater-cons :
      (b : Block D) (rest bs ms cs : List (Block D)) (qs : List (Quadruple D))
      → IsFewer bs ms
      → IsLater rest (edit_statements (λ _. qs) b.index ms) cs
      → IsLater (b ∷ rest) bs cs
  IsLater-cons b rest bs ms cs qs f l =
      let (i, s, _) = edit_statements-same (λ _. qs) b.index ms in
      record {
        later_out = λ x y. omega (arith, l.later_out x y, ap (count y) (s x), f.fewer_out x y);
        later_indexes = l.later_indexes ∙ i ∙ f.fewer_indexes;
        later_others = λ p m.
            l.later_others p (ground (arith, m))
            ∙ statements-edit_statements (λ _. qs) b.index ms p
            ∙ ground (arith, m, f.fewer_statements p);
      }

  optimize_blocks-IsLater :
      (rest : List (Block D)) (s s' : Branching D)
      → optimize_blocks rest s ≡ some s'
      → IsLater rest s.blocks s'.blocks
  unfolding optimize_blocks
  optimize_blocks-IsLater [] s s' h =
      let k : s ≡ s' = cc in
      rw (← k) (record {
        later_out = λ a b. omega arith;
        later_indexes = refl;
        later_others = λ p m. refl;
      })
  optimize_blocks-IsLater (b ∷ rest) s s' h =
      let ((qs, s1), e1, h1) =
        >>=-eq-some (optimize_statements b.index (first_index rest) b.statements s) _ h in
      IsLater-cons b rest s.blocks s1.blocks s'.blocks qs
        (optimize_statements-IsFewer b.index (first_index rest) b.statements qs s s1 e1)
        (optimize_blocks-IsLater rest _ s' h1)

  optimize_blocks-IsLost :
      (p t : ℕ) (q : Quadruple D) (rest : List (Block D)) (s s' : Branching D)
      → IsDistinct (indexes rest)
      → has rest p ≡ true
      → has s.blocks p ≡ true
      → back (statements_of rest p) ≡ some q
      → decide_branch q ≡ some taken
      → q.block ≡ some t
      → next_of rest p ≡ some t
      → optimize_blocks rest s ≡ some s'
      → IsLost p t s'.blocks (back (statements_of s'.blocks p))
  unfolding optimize_blocks next_of
  optimize_blocks-IsLost p t q [] s s' d m there l e b n h = cc
  optimize_blocks-IsLost p t q (c ∷ rest) s s' d m there l e b n h =
      let ((qs, s1), e1, h1) =
        >>=-eq-some (optimize_statements c.index (first_index rest) c.statements s) _ h in
      let f = optimize_statements-IsFewer c.index (first_index rest) c.statements qs s s1 e1 in
      let (i, so, _) = edit_statements-same (λ _. qs) c.index s1.blocks in
      let here : has (edit_statements (λ _. qs) c.index s1.blocks) p ≡ true =
        ap (λ l. contains l p) (i ∙ f.fewer_indexes) ∙ there in
      elim (Bool-cases (c.index == p)) [
        | inl this ↦
            let x : c.index ≡ p = (==_iff c.index p).0 this in
            let next : first_index rest ≡ some t = rw this at n in
            let ran : optimize_statements p (some t) c.statements s ≡ some (qs, s1) =
              ap (λ (y : ℕ). optimize_statements y (some t) c.statements s) (sym x)
              ∙ ap (λ o. optimize_statements c.index o c.statements s) (sym next)
              ∙ e1 in
            let r = optimize_statements-IsLost p t q c.statements qs s s1 (rw this at l) e b ran in
            let later = optimize_blocks-IsLater rest _ s' h1 in
            let absent : has rest p ≡ false = sym (ap (has rest) x) ∙ d.0 in
            let k : statements_of s'.blocks p ≡ qs =
              later.later_others p absent
              ∙ statements-edit_statements (λ _. qs) c.index s1.blocks p
              ∙ ground (arith, this, here, ap (λ l. contains l p) i) in
            record {
              lost_edge = omega (arith, later.later_out p t, ap (count t) (so p), r.lost_edge);
              lost_jump =
                  subst
                    (λ ys.
                      (j : Quadruple D) × (back ys ≡ some j)
                      × (same j.op Operator.goto ≡ true)
                      × (j.block ≡ some t))
                    (sym k) r.lost_jump;
            }
        | inr other ↦
            optimize_blocks-IsLost p t q rest _ s' d.1 (ground (arith, m)) here (rw other at l) e b
              (rw other at n) h1
      ]

  -- If the last statement of a block is a branch on a literal that is taken, to the block behind it, then
  -- once optimize_branches has returned, the block ends in a GOTO there, and has no edge to it.
  pub optimize_branches-lost :
      (f g : Function D) (uid_counter p t n : ℕ) (o : Bool) (q : Quadruple D)
      → IsDistinct (indexes f.blocks)
      → has f.blocks p ≡ true
      → back (statements_of f.blocks p) ≡ some q
      → decide_branch q ≡ some taken
      → q.block ≡ some t
      → next_of f.blocks p ≡ some t
      → optimize_branches f uid_counter ≡ some (g, n, o)
      → (out g.blocks p t ≡ 0)
        × ((j : Quadruple D) × (back (statements_of g.blocks p) ≡ some j)
            × (same j.op Operator.goto ≡ true)
            × (j.block ≡ some t))
  unfolding optimize_branches
  optimize_branches-lost f g uid_counter p t n o q d m l e b k h =
      let first : Branching D = record {
        blocks = f.blocks;
        uid_counter = uid_counter;
        optimized = false;
      } in
      let (s, e1, h1) = >>=-eq-some (optimize_blocks f.blocks first) _ h in
      let r = optimize_blocks-IsLost p t q f.blocks first s d m m l e b k e1 in
      let i : record f { blocks = s.blocks } ≡ g =
        ap (λ (x : Option (Function D × ℕ × Bool)). function_or f x) h1 in
      rw (← i) (r.lost_edge, r.lost_jump)
