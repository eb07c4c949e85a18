-- ===== src/Mtac/Function/Removed.antt =====
-- mtac::Function::remove of src/mtac/Function.cpp, which erases a block from the list and from the
-- edges, and gives the edges from the block before it to the block after it.
use mathlib.Core.Bool.{not}
use eddic.Prelude.{
  ℕ, ◌<◌, ◌≢◌, ◌≡◌, refl, ap, ◌∙◌, arith, Bool, true, false, some, List, [], ◌∷◌, ◌==◌, contains,
  retain, if◌then◌else◌, Bool-cases, inl, inr, ==_iff, ◌>>=◌, >>=-eq-some, IsDistinct,
}
use eddic.Mtac.Quadruple.{Quadruple}
use eddic.Mtac.Function.{Block, indexes, next_of, prev_of, unlink, remove_block}
use eddic.Mtac.Function.Edges.{
  all_blocks, count, has, out, into, successors_of, predecessors_of, count-contains, contains-count,
  successors-absent, predecessors-absent,
}
use eddic.Mtac.Function.Loops.{
  HasAll, IsForgotten, IsRedirected, forget_in_successors_lem, forget_in_predecessors_lem,
}
use eddic.Mtac.Function.Linked.{IsLinked, find-has, next_of-has, next_of-ne, next_of_self}

module _ {D : Type 0} where
  successors-unlink :
      (bs : List (Block D)) (p a : ℕ)
      → successors_of (unlink p bs) a ≡ (if a == p then [] else successors_of bs a)
  successors-unlink [] p a = ground arith
  successors-unlink (b ∷ bs) p a = ground (arith, successors-unlink bs p a)

  predecessors-unlink :
      (bs : List (Block D)) (p a : ℕ)
      → predecessors_of (unlink p bs) a ≡ (if a == p then [] else predecessors_of bs a)
  predecessors-unlink [] p a = ground arith
  predecessors-unlink (b ∷ bs) p a = ground (arith, predecessors-unlink bs p a)

  indexes-unlink :
      (bs : List (Block D)) (p : ℕ)
      → indexes (unlink p bs) ≡ retain (λ x. not (x == p)) (indexes bs)
  indexes-unlink [] p = refl
  indexes-unlink (b ∷ bs) p = ground (arith, indexes-unlink bs p)

  pub HasAll-successors :
      (bs : List (Block D)) (p : ℕ) → IsLinked bs → HasAll bs (successors_of bs p)
  HasAll-successors bs p l x m = elim (Bool-cases (has bs x)) [
    | inl there ↦ there
    | inr absent ↦ ground (
      arith,
      contains-count x (successors_of bs p),
      l p x,
      ap (count p) (predecessors-absent bs x absent),
    )
  ]

  has-into : (bs : List (Block D)) (p x : ℕ) → IsLinked bs → 0 < into bs x p → has bs x ≡ true
  has-into bs p x l h = elim (Bool-cases (has bs x)) [
    | inl there ↦ there
    | inr absent ↦ ground (arith, l x p, ap (count p) (successors-absent bs x absent))
  ]

  module _ (p prev next : ℕ) (bs cs ds : List (Block D)) (l : IsLinked bs) (ne : p ≢ next)
      (r : IsForgotten p (successors_of bs p) bs cs)
      (s : IsRedirected p prev next (predecessors_of cs p) cs ds) where
    into_self : into cs p p ≡ 0
    into_self = ground (arith, r.less_into p p, l p p, count-contains p (successors_of bs p))

    loops_from_self : (b : ℕ) → (b == p) ≡ false → into ds p b ≡ 0
    loops_from_self b h = elim (Bool-cases (prev == p)) [
      | inl same ↦
          let e : prev ≡ p = (==_iff prev p).0 same in
          let k : count prev (predecessors_of cs p) ≡ 0 =
            ap (λ n. count n (predecessors_of cs p)) e ∙ into_self in
          ground
            (arith, s.moved_into p b, r.less_into p b, l p b, count-contains b (successors_of bs p))
      | inr other ↦
          ground
            (arith, s.moved_into p b, r.less_into p b, l p b, count-contains b (successors_of bs p))
    ]

    loops_to_self : (a : ℕ) → (a == p) ≡ false → out ds a p ≡ 0
    loops_to_self a h = ground (
      arith,
      s.moved_out a p,
      r.same_out a p,
      r.less_into a p,
      l a p,
      count-contains a (predecessors_of cs p),
    )

    loops_others : (a b : ℕ) → (a == p) ≡ false → (b == p) ≡ false → out ds a b ≡ into ds a b
    loops_others a b ha hb =
        ground (arith, s.moved_out a b, s.moved_into a b, r.same_out a b, r.less_into a b, l a b)

    no_more : contains (predecessors_of bs p) prev ≡ false → count prev (predecessors_of cs p) ≡ 0
    no_more apart =
        ground (arith, r.less_into prev p, count-contains prev (predecessors_of bs p) apart)

    into-others :
        contains (predecessors_of bs p) prev ≡ false
        → (a b : ℕ) → (a == p) ≡ false
        → (b == p) ≡ false
        → into (unlink p ds) a b ≡ into bs a b
    into-others apart a b ha hb = ground (
      arith,
      predecessors-unlink ds p b,
      s.moved_into a b,
      r.less_into a b,
      no_more apart,
      hb,
      ha,
    )

    unlink-IsLinked : IsLinked (unlink p ds)
    unlink-IsLinked a b = elim (Bool-cases (a == p)) [
      | inl from ↦ elim (Bool-cases (b == p)) [
        | inl to ↦ ground (arith, successors-unlink ds p a, predecessors-unlink ds p b)
        | inr other ↦
            let e : a ≡ p = (==_iff a p).0 from in
            let k : into ds a b ≡ 0 = ap (λ n. into ds n b) e ∙ loops_from_self b other in
            ground (arith, successors-unlink ds p a, predecessors-unlink ds p b, k)
      ]
      | inr other ↦ elim (Bool-cases (b == p)) [
        | inl to ↦
            let e : b ≡ p = (==_iff b p).0 to in
            let k : out ds a b ≡ 0 = ap (λ n. out ds a n) e ∙ loops_to_self a other in
            ground (arith, successors-unlink ds p a, predecessors-unlink ds p b, k)
        | inr others ↦
            let k = loops_others a b other others in
            ground (arith, successors-unlink ds p a, predecessors-unlink ds p b, k)
      ]
    ]

  -- What `remove` does to the blocks that stay, when the block before has no edge to the one removed.
  pub record IsRemoved (p : ℕ) (bs cs : List (Block D)) : Type 0 where
    pub removed_indexes : indexes cs ≡ retain (λ x. not (x == p)) (indexes bs)
    pub removed_linked : IsLinked cs
    pub removed_tests :
        (test : List (Quadruple D) → Bool) → all_blocks test bs ≡ true → all_blocks test cs ≡ true
    pub removed_into : (a b : ℕ) → (a == p) ≡ false → (b == p) ≡ false → into cs a b ≡ into bs a b

  tests-unlink :
      (p : ℕ) (bs : List (Block D)) (test : List (Quadruple D) → Bool)
      → all_blocks test bs ≡ true
      → all_blocks test (unlink p bs) ≡ true
  tests-unlink p [] test h = refl
  tests-unlink p (b ∷ bs) test h = ground (arith, tests-unlink p bs test, h)

  pub remove_block_lem :
      (p prev next : ℕ) (bs : List (Block D))
      → IsDistinct (indexes bs)
      → IsLinked bs
      → prev_of bs p ≡ some prev
      → next_of bs p ≡ some next
      → (cs : List (Block D)) × (remove_block p bs ≡ some cs)
        × IsLinked cs
        × (indexes cs ≡ retain (λ x. not (x == p)) (indexes bs))
        × (contains (predecessors_of bs p) prev ≡ false → IsRemoved p bs cs)
  unfolding remove_block
  remove_block_lem p prev next bs d l hp hn =
      let ne = next_of-ne bs p next d hn in
      let (b, found, fs, fp) = find-has bs p (next_of_self bs p next hn) in
      let (cs, done, r) =
        forget_in_successors_lem p (successors_of bs p) bs (HasAll-successors bs p l) in
      let here = ap (λ l. contains l p) r.same_indexes ∙ next_of_self bs p next hn in
      let (c, found', fs', fp') = find-has cs p here in
      let all : HasAll cs (predecessors_of cs p) = λ x m.
        ap (λ l. contains l x) r.same_indexes
        ∙ has-into bs p x l
            (ground (arith, contains-count x (predecessors_of cs p), r.less_into x p)) in
      let after = ap (λ l. contains l next) r.same_indexes ∙ next_of-has bs p next hn in
      let (ds, done', s) =
        forget_in_predecessors_lem p prev next (predecessors_of cs p) cs all after ne in
      (
        unlink p ds,
        rw (hn, hp, found, ◌>>=◌)
            (rw (← fs)
              (rw (done, ◌>>=◌) (rw (found', ◌>>=◌) (rw (← fp') (rw (done', ◌>>=◌) refl))))),
        unlink-IsLinked p prev next bs cs ds l ne r s,
        indexes-unlink ds p ∙ ap (retain (λ x. not (x == p))) (s.same_indexes ∙ r.same_indexes),
        λ apart. record {
          removed_indexes =
              indexes-unlink ds p
              ∙ ap (retain (λ x. not (x == p))) (s.same_indexes ∙ r.same_indexes);
          removed_linked = unlink-IsLinked p prev next bs cs ds l ne r s;
          removed_tests =
              λ test h. tests-unlink p ds test (s.same_tests test ∙ r.same_tests test ∙ h);
          removed_into = λ a b ha hb. into-others p prev next bs cs ds l ne r s apart a b ha hb;
        },
      )

  pub remove_block-IsLinked :
      (p : ℕ) (bs cs : List (Block D))
      → IsDistinct (indexes bs)
      → IsLinked bs
      → remove_block p bs ≡ some cs
      → IsLinked cs × (indexes cs ≡ retain (λ x. not (x == p)) (indexes bs)) × (has bs p ≡ true)
  unfolding remove_block
  remove_block-IsLinked p bs cs d l h =
      let (next, hn, h1) = >>=-eq-some (next_of bs p) _ h in
      let (prev, hp, h2) = >>=-eq-some (prev_of bs p) _ h1 in
      let (ds, done, linked, e, _) = remove_block_lem p prev next bs d l hp hn in
      let same : cs ≡ ds = (let k = done in cc (h)) in
      rw same (linked, e, next_of_self bs p next hn)
