-- ===== src/Mtac/Function/Inserted.antt =====
-- insert_before of src/mtac/Function.cpp: a new block takes part in no edge.
use eddic.Prelude.{
  ℕ, suc, ◌≡◌, refl, arith, true, false, ◌&&◌, ◌||◌, List, [], ◌∷◌, ◌==◌, length, IsDistinct,
}
use eddic.Mtac.Function.{Block, indexes}
use eddic.Mtac.Function.Edges.{
  has, successors_of, predecessors_of, successors-absent, predecessors-absent,
}
use eddic.Mtac.Function.Merge.{block_of, insert_from}

module _ {D : Type 0} where
  -- A new block between two others.
  pub insert_from-indexes :
      (p : ℕ) (c : Block D) (bs : List (Block D)) (x : ℕ)
      → has (insert_from p c bs) x ≡ (has bs x || (x == c.index && has bs p))
  unfolding insert_from
  insert_from-indexes p c [] x = ground arith
  insert_from-indexes p c (b ∷ bs) x = ground (arith, insert_from-indexes p c bs x)

  pub insert_from-IsDistinct :
      (p : ℕ) (c : Block D) (bs : List (Block D))
      → IsDistinct (indexes bs)
      → has bs c.index ≡ false
      → IsDistinct (indexes (insert_from p c bs))
  unfolding insert_from
  insert_from-IsDistinct p c [] d h = d
  insert_from-IsDistinct p c (b ∷ bs) d h =
      ground (arith, insert_from-IsDistinct p c bs d.1, insert_from-indexes p c bs b.index, d.0)

  pub length-insert_from :
      (p : ℕ) (c : Block D) (bs : List (Block D))
      → has bs p ≡ true
      → length (insert_from p c bs) ≡ suc (length bs)
  unfolding insert_from
  length-insert_from p c [] h = cc
  length-insert_from p c (b ∷ bs) h = ground (arith, length-insert_from p c bs)

  pub insert_from-successors :
      (p i : ℕ) (bs : List (Block D)) (a : ℕ)
      → has bs i ≡ false
      → successors_of (insert_from p (block_of i) bs) a ≡ successors_of bs a
  unfolding insert_from
  insert_from-successors p i [] a h = refl
  insert_from-successors p i (b ∷ bs) a h =
      ground (arith, insert_from-successors p i bs a, successors-absent (b ∷ bs) a)

  pub insert_from-predecessors :
      (p i : ℕ) (bs : List (Block D)) (a : ℕ)
      → has bs i ≡ false
      → predecessors_of (insert_from p (block_of i) bs) a ≡ predecessors_of bs a
  unfolding insert_from
  insert_from-predecessors p i [] a h = refl
  insert_from-predecessors p i (b ∷ bs) a h =
      ground (arith, insert_from-predecessors p i bs a, predecessors-absent (b ∷ bs) a)
