-- ===== src/Mtac/Function/Loops.antt =====
-- The two loops of mtac::Function::remove in src/mtac/Function.cpp: what each does to the edges.
use eddic.Prelude.{
  ℕ, ◌+◌, ◌≢◌, ◌≡◌, refl, ap, ◌∙◌, arith, Bool, true, ◌&&◌, some, List, [], ◌∷◌, ◌==◌, contains,
  if◌then◌else◌, Bool-cases, inl, inr,
}
use eddic.Mtac.Quadruple.{Quadruple}
use eddic.Mtac.Function.{
  Block, indexes, erase_all, edit_successors, edit_predecessors, forget_in_successors, redirect,
  forget_in_predecessors,
}
use eddic.Mtac.Function.Edges.{
  all_blocks, all_blocks-edit_successors, all_blocks-edit_predecessors, count, has, out, into,
  indexes-edit_successors, indexes-edit_predecessors, predecessors-edit_successors,
  successors-edit_predecessors, out-erase, into-erase, make_edge-IsAdded,
}

module _ {D : Type 0} where
  abbrev pub HasAll : List (Block D) → List ℕ → Type 0
  HasAll bs xs = (x : ℕ) → contains xs x ≡ true → has bs x ≡ true

  -- What the loop over the successors `xs` of `p` does.
  pub record IsForgotten (p : ℕ) (xs : List ℕ) (bs cs : List (Block D)) : Type 0 where
    pub same_indexes : indexes cs ≡ indexes bs
    pub same_tests : (test : List (Quadruple D) → Bool) → all_blocks test cs ≡ all_blocks test bs
    pub same_out : (a b : ℕ) → out cs a b ≡ out bs a b
    pub less_into : (a b : ℕ) → into cs a b ≡ (if p == a && contains xs b then 0 else into bs a b)

  pub forget_in_successors_lem :
      (p : ℕ) (xs : List ℕ) (bs : List (Block D))
      → HasAll bs xs
      → (cs : List (Block D)) × (forget_in_successors p xs bs ≡ some cs) × IsForgotten p xs bs cs
  unfolding forget_in_successors
  forget_in_successors_lem p [] bs all = (
    bs,
    refl,
    record {
      same_indexes = refl;
      same_tests = λ test. refl;
      same_out = λ a b. refl;
      less_into = λ a b. ground arith;
    },
  )
  forget_in_successors_lem p (s ∷ rest) bs all =
      let mid = edit_predecessors (erase_all p) s bs in
      let e = indexes-edit_predecessors (erase_all p) s bs in
      let (cs, done, r) =
        forget_in_successors_lem p rest mid
          (λ x m. ap (λ l. contains l x) e ∙ all x (ground arith)) in
      (
        cs,
        rw (all s (ground arith)) done,
        record {
          same_indexes = r.same_indexes ∙ e;
          same_tests =
              λ test. r.same_tests test ∙ all_blocks-edit_predecessors (erase_all p) s test bs;
          same_out = λ a b.
              r.same_out a b ∙ ap (count b) (successors-edit_predecessors (erase_all p) s bs a);
          less_into = λ a b. ground (arith, r.less_into a b, into-erase bs s p a b);
        },
      )

  -- What the loop over the predecessors `xs` does, with `k` edges from `prev` to `next` made.
  pub record IsRedirected (p prev next : ℕ) (xs : List ℕ) (bs cs : List (Block D)) : Type 0 where
    pub same_indexes : indexes cs ≡ indexes bs
    pub same_tests : (test : List (Quadruple D) → Bool) → all_blocks test cs ≡ all_blocks test bs
    pub moved_out :
        (a b : ℕ)
        → out cs a b
          ≡ (if p == b && contains xs a then 0 else out bs a b)
            + (if prev == a && next == b then count prev xs else 0)
    pub moved_into :
        (a b : ℕ)
        → into cs a b ≡ into bs a b + (if prev == a && next == b then count prev xs else 0)

  pub redirect_lem :
      (p prev next q : ℕ) (bs : List (Block D))
      → has bs q ≡ true
      → has bs next ≡ true
      → p ≢ next
      → (cs : List (Block D)) × (redirect p prev next q bs ≡ some cs)
        × IsRedirected p prev next (q ∷ []) bs cs
  unfolding redirect
  redirect_lem p prev next q bs hq hn other =
      let mid = edit_successors (erase_all p) q bs in
      let e = indexes-edit_successors (erase_all p) q bs in
      elim (Bool-cases (q == prev)) [
        | inl through ↦
            let (cs, done, r) =
              make_edge-IsAdded q next mid (ap (λ l. contains l q) e ∙ hq)
                (ap (λ l. contains l next) e ∙ hn) in
            (
              cs,
              rw (hq, through) done,
              record {
                same_indexes = r.same_indexes ∙ e;
                same_tests =
                    λ test. r.same_tests test ∙ all_blocks-edit_successors (erase_all p) q test bs;
                moved_out = λ a b. ground (arith, r.more_out a b, out-erase bs q p a b);
                moved_into = λ a b. ground (
                  arith,
                  r.more_into a b,
                  ap (count a) (predecessors-edit_successors (erase_all p) q bs b),
                );
              },
            )
        | inr apart ↦ (
          mid,
          rw (hq, apart) refl,
          record {
            same_indexes = e;
            same_tests = λ test. all_blocks-edit_successors (erase_all p) q test bs;
            moved_out = λ a b. ground (arith, out-erase bs q p a b);
            moved_into = λ a b.
                ground (arith, ap (count a) (predecessors-edit_successors (erase_all p) q bs b));
          },
        )
      ]

  pub forget_in_predecessors_lem :
      (p prev next : ℕ) (xs : List ℕ) (bs : List (Block D))
      → HasAll bs xs
      → has bs next ≡ true
      → p ≢ next
      → (cs : List (Block D)) × (forget_in_predecessors p prev next xs bs ≡ some cs)
        × IsRedirected p prev next xs bs cs
  unfolding forget_in_predecessors
  forget_in_predecessors_lem p prev next [] bs all hn other = (
    bs,
    refl,
    record {
      same_indexes = refl;
      same_tests = λ test. refl;
      moved_out = λ a b. ground arith;
      moved_into = λ a b. ground arith;
    },
  )
  forget_in_predecessors_lem p prev next (q ∷ rest) bs all hn other =
      let (mid, first, r) = redirect_lem p prev next q bs (all q (ground arith)) hn other in
      let keep = λ (x : ℕ). ap (λ l. contains l x) r.same_indexes in
      let (cs, done, s) =
        forget_in_predecessors_lem p prev next rest mid (λ x m. keep x ∙ all x (ground arith))
          (keep next ∙ hn) other in
      (
        cs,
        rw first done,
        record {
          same_indexes = s.same_indexes ∙ r.same_indexes;
          same_tests = λ test. s.same_tests test ∙ r.same_tests test;
          moved_out = λ a b. ground (arith, s.moved_out a b, r.moved_out a b);
          moved_into = λ a b. ground (arith, s.moved_into a b, r.moved_into a b);
        },
      )
