-- ===== src/Mtac/Merging/Refined.antt =====
-- src/mtac/merge_basic_blocks.cpp: the operations that the pass calls keep the runs of the function.
use eddic.Prelude.{
  ℕ, ◌≡◌, refl, sym, ap, ◌∙◌, arith, true, false, some, List, [], ◌∷◌, ◌++◌, ◌==◌, contains,
  Bool-cases, inl, inr, ==_iff, IsDistinct,
}
use mathlib.Core.Path.{subst}
use eddic.Word.{minus_one}
use eddic.Mtac.Operator
use eddic.Mtac.Operator.{same}
use eddic.Mtac.Quadruple.{Quadruple}
use eddic.Mtac.Function.{Block, indexes, find, next_of, back}
use eddic.Mtac.Function.Edges.{has}
use eddic.Mtac.Function.Linked.{next_of-ne, next_of_self}
use eddic.Mtac.Merging.{size_no_nop, pop_back}
use eddic.Mtac.Merging.Places.{next_of-prev_of}
use eddic.Mtac.Merging.Code.{Places, shape, drop_place, edit_place}
use eddic.Mtac.Merging.Runs.{next_at, statements_at, index_list}
use eddic.Mtac.Merging.Used.{
  AllUsed, Refines, Refines-trans, AllUsed-dropped, AllUsed-merged, AllUsed-popped,
}
use eddic.Mtac.Merging.Joins.{Runs-joined}
use eddic.Mtac.Merging.Erased.{Runs-erased}
use eddic.Mtac.Merging.Popped.{Runs-popped}

module _ {D : Type 0} where
  pub statements_at-find :
      (p : ℕ) (b : Block D) (bs : List (Block D))
      → find bs p ≡ some b
      → statements_at (shape bs) p ≡ b.statements
  unfolding find
  statements_at-find p b [] f = cc
  statements_at-find p b (a ∷ bs) f = elim (Bool-cases (a.index == p)) [
    | inl here ↦
        let e : a ≡ b = (let k = rw here at f in cc) in
        rw here (ap (λ (x : Block D). x.statements) e)
    | inr there ↦ rw there (statements_at-find p b bs (rw there at f))
  ]

  next_at-shape : (i : ℕ) (bs : List (Block D)) → next_at (shape bs) i ≡ next_of bs i
  unfolding next_of
  next_at-shape i [] = refl
  next_at-shape i (b ∷ []) = refl
  next_at-shape i (b ∷ a ∷ bs) = ground (arith, next_at-shape i (a ∷ bs))

  index_list-shape : (bs : List (Block D)) → index_list (shape bs) ≡ indexes bs
  index_list-shape [] = refl
  index_list-shape (b ∷ bs) = ap (λ l. b.index ∷ l) (index_list-shape bs)

  only_before :
      (p n i : ℕ) (bs : List (Block D))
      → IsDistinct (indexes bs)
      → next_of bs p ≡ some n
      → next_of bs i ≡ some n
      → i ≡ p
  only_before p n i bs d h k =
      let a = next_of-prev_of p n bs d h in let b = next_of-prev_of i n bs d k in cc

  -- An operation keeps the runs, and the set of the blocks that are used.
  pub record IsRefined (usage : List ℕ) (ps qs : Places D) : Type 0 where
    pub same_runs : Refines ps qs
    pub all_used : AllUsed usage qs

  pub IsRefined-same : (usage : List ℕ) (ps : Places D) → AllUsed usage ps → IsRefined usage ps ps
  IsRefined-same usage ps used = record {
    same_runs = λ d other law env final r. r;
    all_used = used;
  }

  pub IsRefined-trans :
      (usage usage' : List ℕ) (ps qs rs : Places D)
      → IsRefined usage ps qs
      → IsRefined usage' qs rs
      → IsRefined usage' ps rs
  IsRefined-trans usage usage' ps qs rs f g = record {
    same_runs = Refines-trans ps qs rs f.same_runs g.same_runs;
    all_used = g.all_used;
  }

  module _ (usage : List ℕ) (bs : List (Block D)) (distinct : IsDistinct (indexes bs))
      (used : AllUsed usage (shape bs)) where
    IsDistinct-places : IsDistinct (index_list (shape bs))
    IsDistinct-places = subst IsDistinct (sym (index_list-shape bs)) distinct

    apart_places : (p n : ℕ) → next_of bs p ≡ some n → (p == n) ≡ false
    apart_places p n h = elim (Bool-cases (p == n)) [
      | inl same' ↦ absurd (next_of-ne bs p n distinct h ((==_iff p n).0 same'))
      | inr other ↦ other
    ]

    pub IsRefined-dropped :
        (p : ℕ) (b : Block D)
        → find bs p ≡ some b
        → size_no_nop b.statements ≡ 0
        → (minus_one == p) ≡ false
        → contains usage p ≡ false
        → IsRefined usage (shape bs) (drop_place p (shape bs))
    IsRefined-dropped p b found z not_entry unused = record {
      same_runs = λ d other law env final.
          Runs-erased d other law p (shape bs) IsDistinct-places
            (ap size_no_nop (statements_at-find p b bs found) ∙ z) (used p unused) minus_one env
            final not_entry;
      all_used = AllUsed-dropped usage p (shape bs) used;
    }

    pub IsRefined-merged :
        (p n : ℕ)
        → next_of bs p ≡ some n
        → (minus_one == n) ≡ false
        → contains usage n ≡ false
        → IsRefined usage
            (shape bs)
            (drop_place n (edit_place (λ qs. qs ++ statements_at (shape bs) n) p (shape bs)))
    IsRefined-merged p n h not_entry unused = record {
      same_runs = λ d other law env final.
          Runs-joined d other law p n (shape bs) IsDistinct-places
            (ap (λ l. contains l p) (index_list-shape bs) ∙ next_of_self bs p n h)
            (next_at-shape p bs ∙ h)
            (λ i e. only_before p n i bs distinct h (sym (next_at-shape i bs) ∙ e))
            (apart_places p n h) (used n unused) minus_one env final
            (λ e. ground (arith, not_entry, e));
      all_used = AllUsed-merged usage p n (shape bs) used;
    }

    pub IsRefined-popped :
        (p : ℕ) (b : Block D) (q : Quadruple D)
        → has bs p ≡ true
        → find bs p ≡ some b
        → back b.statements ≡ some q
        → same q.op Operator.goto ≡ true
        → q.block ≡ next_of bs p
        → IsRefined usage (shape bs) (edit_place pop_back p (shape bs))
    IsRefined-popped p b q there found last goto target = record {
      same_runs = λ d other law env final.
          Runs-popped d other q goto p (shape bs)
            (ap (λ l. contains l p) (index_list-shape bs) ∙ there)
            (ap back (statements_at-find p b bs found) ∙ last) (target ∙ sym (next_at-shape p bs))
            (some minus_one) env final;
      all_used = AllUsed-popped usage p (shape bs) used;
    }
