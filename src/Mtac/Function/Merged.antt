-- ===== src/Mtac/Function/Merged.antt =====
-- merge_basic_blocks of src/mtac/Function.cpp: the edges stay linked.
use mathlib.Core.Bool.{not}
use eddic.Prelude.{
  ℕ, ◌≡◌, refl, sym, ap, ◌∙◌, arith, Bool, true, false, ◌||◌, inl, inr, Option, none, some, List,
  [], ◌∷◌, ◌==◌, contains, retain, if◌then◌else◌, Bool-cases, >>=-eq-some, IsDistinct,
}
use eddic.Mtac.Quadruple.{Quadruple}
use eddic.Mtac.Function.{Block, indexes, find, next_of, prev_of, make_edge}
use eddic.Mtac.Function.Edges.{count, has, successors_of, predecessors_of}
use eddic.Mtac.Function.Linked.{IsLinked, make_edge-IsLinked}
use eddic.Mtac.Function.Removed.{remove_block-IsLinked}
use eddic.Mtac.Function.Merge.{points_to, edit_statements, adopt, joined, is_empty, merge_blocks}

module _ {D : Type 0} where
  -- The loop of merge_basic_blocks over the successors.
  pub adopt-IsLinked :
      (q : ℕ) (next : Option ℕ) (xs : List ℕ) (bs cs : List (Block D))
      → IsLinked bs
      → adopt q next xs bs ≡ some cs
      → IsLinked cs × (indexes cs ≡ indexes bs)
  unfolding adopt
  adopt-IsLinked q next [] bs cs l h = let e : bs ≡ cs = cc in rw (← e) (l, refl)
  adopt-IsLinked q next (s ∷ rest) bs cs l h = elim (Bool-cases (points_to next s)) [
    | inl falls ↦ adopt-IsLinked q next rest bs cs l (rw falls at h)
    | inr jumps ↦
        let (ms, first, later) =
          >>=-eq-some (make_edge q s bs) (adopt q next rest) (rw jumps at h) in
        let r = make_edge-IsLinked q s bs ms l first in
        let t = adopt-IsLinked q next rest ms cs r.0 later in (t.0, t.1 ∙ r.1)
  ]

  abbrev adopted : ℕ → ℕ → Bool → Bool → List ℕ → List (Block D) → Option (List (Block D))
  adopted p q sibling empty xs bs =
      if sibling then (if empty then some bs else adopt q (next_of bs p) xs bs) else none

  adopted-IsLinked :
      (p q : ℕ) (sibling empty : Bool) (xs : List ℕ) (bs cs : List (Block D))
      → IsLinked bs
      → adopted p q sibling empty xs bs ≡ some cs
      → IsLinked cs × (indexes cs ≡ indexes bs)
  adopted-IsLinked p q false empty xs bs cs l h = cc
  adopted-IsLinked p q true true xs bs cs l h = let e : bs ≡ cs = cc in rw (← e) (l, refl)
  adopted-IsLinked p q true false xs bs cs l h = adopt-IsLinked q (next_of bs p) xs bs cs l h

  pub edit_statements-same :
      (g : List (Quadruple D) → List (Quadruple D)) (q : ℕ) (bs : List (Block D))
      → (indexes (edit_statements g q bs) ≡ indexes bs)
        × ((a : ℕ) → successors_of (edit_statements g q bs) a ≡ successors_of bs a)
        × ((a : ℕ) → predecessors_of (edit_statements g q bs) a ≡ predecessors_of bs a)
  unfolding edit_statements
  edit_statements-same g q [] = (refl, λ a. refl, λ a. refl)
  edit_statements-same g q (b ∷ bs) =
      let (i, s, p) = edit_statements-same g q bs in
      (ground (arith, i), λ a. ground (arith, s a), λ a. ground (arith, p a))

  pub edit_statements-IsLinked :
      (g : List (Quadruple D) → List (Quadruple D)) (q : ℕ) (bs : List (Block D))
      → IsLinked bs
      → IsLinked (edit_statements g q bs)
  edit_statements-IsLinked g q bs l a b =
      let (i, s, p) = edit_statements-same g q bs in
      ap (count b) (s a) ∙ l a b ∙ sym (ap (count a) (p b))

  pub merge_blocks-IsLinked :
      (p q : ℕ) (bs cs : List (Block D))
      → IsDistinct (indexes bs)
      → IsLinked bs
      → merge_blocks p q bs ≡ some cs
      → IsLinked cs × (indexes cs ≡ retain (λ x. not (x == p)) (indexes bs)) × (has bs p ≡ true)
  unfolding merge_blocks
  merge_blocks-IsLinked p q bs cs d l h =
      let (source, found, h1) = >>=-eq-some (find bs p) _ h in
      let sibling = points_to (next_of bs p) q || points_to (prev_of bs p) q in
      let (ms, done, h2) =
        >>=-eq-some (adopted p q sibling (is_empty source.statements) source.successors bs) _ h1 in
      let r =
        adopted-IsLinked p q sibling (is_empty source.statements) source.successors bs ms l done in
      let g = joined (points_to (next_of bs p) q) source.statements in
      let i = (edit_statements-same g q ms).0 ∙ r.1 in
      let (t, u, m) =
        remove_block-IsLinked p (edit_statements g q ms) cs (rw i d)
          (edit_statements-IsLinked g q ms r.0) h2 in
      (t, u ∙ ap (retain (λ x. not (x == p))) i, sym (ap (λ l. contains l p) i) ∙ m)
