-- ===== src/Mtac/Blocks/Cut.antt =====
-- src/mtac/BasicBlockExtractor.cpp: what a new block and a new statement do to the list of blocks.
use eddic.Prelude.{
  ℕ, suc, ◌≡◌, refl, sym, ap, ◌∙◌, arith, Bool, false, ◌||◌, List, [], ◌∷◌, ◌++◌, ◌==◌, length,
  if◌then◌else◌, IsDistinct,
}
use mathlib.Core.Bool.{or-false, or_assoc}
use mathlib.Core.List.{append_assoc, append-nil}
use eddic.Mtac.Quadruple.{Quadruple}
use eddic.Mtac.Function.{Block, indexes}
use eddic.Mtac.Function.Edges.{has, successors_of, predecessors_of}
use eddic.Mtac.Function.Merge.{block_of}
use eddic.Mtac.Blocks.{ends_block, append_last}

module _ {D : Type 0} where
  -- whether the last statement of a block ends it, and whether one before the last does
  abbrev pub ends_last : List (Quadruple D) → Bool
  ends_last [] = false
  ends_last (q ∷ []) = ends_block q
  ends_last (q ∷ r ∷ rest) = ends_last (r ∷ rest)

  abbrev pub ends_early : List (Quadruple D) → Bool
  ends_early [] = false
  ends_early (q ∷ []) = false
  ends_early (q ∷ r ∷ rest) = ends_block q || ends_early (r ∷ rest)

  -- the same of the last block, and of any block
  abbrev pub last_ends : List (Block D) → Bool
  last_ends [] = false
  last_ends (b ∷ []) = ends_last b.statements
  last_ends (b ∷ c ∷ bs) = last_ends (c ∷ bs)

  abbrev pub any_early : List (Block D) → Bool
  any_early [] = false
  any_early (b ∷ bs) = ends_early b.statements || any_early bs

  -- the statements of all blocks, in order
  abbrev pub flat : List (Block D) → List (Quadruple D)
  flat [] = []
  flat (b ∷ bs) = b.statements ++ flat bs

  ends_last-append :
      (xs : List (Quadruple D)) (q : Quadruple D) → ends_last (xs ++ q ∷ []) ≡ ends_block q
  ends_last-append [] q = refl
  ends_last-append (x ∷ []) q = refl
  ends_last-append (x ∷ y ∷ xs) q = ends_last-append (y ∷ xs) q

  ends_early-append :
      (xs : List (Quadruple D)) (q : Quadruple D)
      → ends_early (xs ++ q ∷ []) ≡ (ends_early xs || ends_last xs)
  ends_early-append [] q = refl
  ends_early-append (x ∷ []) q = or-false (ends_block x)
  ends_early-append (x ∷ y ∷ xs) q =
      ap (λ r. ends_block x || r) (ends_early-append (y ∷ xs) q)
      ∙ sym (or_assoc (ends_block x) (ends_early (y ∷ xs)) (ends_last (y ∷ xs)))

  -- A block with no statements and no edges, behind the others.
  module _ (i : ℕ) where
    pub has-append :
        (bs : List (Block D)) (x : ℕ) → has (bs ++ block_of i ∷ []) x ≡ (has bs x || x == i)
    has-append [] x = ground arith
    has-append (b ∷ bs) x = ground (arith, has-append bs x)

    pub append-IsDistinct :
        (bs : List (Block D))
        → IsDistinct (indexes bs)
        → has bs i ≡ false
        → IsDistinct (indexes (bs ++ block_of i ∷ []))
    append-IsDistinct [] d h = (refl, tt)
    append-IsDistinct (b ∷ bs) d h =
        ground (arith, append-IsDistinct bs d.1, has-append bs b.index, d.0)

    pub successors-append :
        (bs : List (Block D)) (a : ℕ) → successors_of (bs ++ block_of i ∷ []) a ≡ successors_of bs a
    successors-append [] a = ground arith
    successors-append (b ∷ bs) a = ground (arith, successors-append bs a)

    pub predecessors-append :
        (bs : List (Block D)) (a : ℕ)
        → predecessors_of (bs ++ block_of i ∷ []) a ≡ predecessors_of bs a
    predecessors-append [] a = ground arith
    predecessors-append (b ∷ bs) a = ground (arith, predecessors-append bs a)

    pub any_early-append : (bs : List (Block D)) → any_early (bs ++ block_of i ∷ []) ≡ any_early bs
    any_early-append [] = refl
    any_early-append (b ∷ bs) = ap (λ r. ends_early b.statements || r) (any_early-append bs)

    pub last_ends-append : (bs : List (Block D)) → last_ends (bs ++ block_of i ∷ []) ≡ false
    last_ends-append [] = refl
    last_ends-append (b ∷ []) = refl
    last_ends-append (b ∷ c ∷ bs) = last_ends-append (c ∷ bs)

    pub flat-append : (bs : List (Block D)) → flat (bs ++ block_of i ∷ []) ≡ flat bs
    flat-append [] = refl
    flat-append (b ∷ bs) = ap (λ r. b.statements ++ r) (flat-append bs)

  -- A statement behind those of the last block.
  module _ (q : Quadruple D) where
    pub indexes-append_last : (bs : List (Block D)) → indexes (append_last q bs) ≡ indexes bs
    unfolding append_last
    indexes-append_last [] = refl
    indexes-append_last (b ∷ []) = refl
    indexes-append_last (b ∷ c ∷ bs) = ap (λ r. b.index ∷ r) (indexes-append_last (c ∷ bs))

    pub successors-append_last :
        (bs : List (Block D)) (a : ℕ) → successors_of (append_last q bs) a ≡ successors_of bs a
    unfolding append_last
    successors-append_last [] a = refl
    successors-append_last (b ∷ []) a = refl
    successors-append_last (b ∷ c ∷ bs) a =
        ap (λ r. if b.index == a then b.successors else r) (successors-append_last (c ∷ bs) a)

    pub predecessors-append_last :
        (bs : List (Block D)) (a : ℕ) → predecessors_of (append_last q bs) a ≡ predecessors_of bs a
    unfolding append_last
    predecessors-append_last [] a = refl
    predecessors-append_last (b ∷ []) a = refl
    predecessors-append_last (b ∷ c ∷ bs) a =
        ap (λ r. if b.index == a then b.predecessors else r) (predecessors-append_last (c ∷ bs) a)

    pub length-append_last : (bs : List (Block D)) → length (append_last q bs) ≡ length bs
    unfolding append_last
    length-append_last [] = refl
    length-append_last (b ∷ []) = refl
    length-append_last (b ∷ c ∷ bs) = ap suc (length-append_last (c ∷ bs))

    pub any_early-append_last :
        (bs : List (Block D)) → last_ends bs ≡ false → any_early (append_last q bs) ≡ any_early bs
    unfolding append_last
    any_early-append_last [] h = refl
    any_early-append_last (b ∷ []) h =
        ap (λ r. r || false)
          (ends_early-append b.statements q
            ∙ ap (λ r. ends_early b.statements || r) h
            ∙ or-false (ends_early b.statements))
    any_early-append_last (b ∷ c ∷ bs) h =
        ap (λ r. ends_early b.statements || r) (any_early-append_last (c ∷ bs) h)

    pub last_ends-append_last :
        (b : Block D) (bs : List (Block D)) → last_ends (append_last q (b ∷ bs)) ≡ ends_block q
    unfolding append_last
    last_ends-append_last b [] = ends_last-append b.statements q
    last_ends-append_last b (c ∷ []) = last_ends-append_last c []
    last_ends-append_last b (c ∷ d ∷ bs) = last_ends-append_last c (d ∷ bs)

    pub flat-append_last :
        (b : Block D) (bs : List (Block D))
        → flat (append_last q (b ∷ bs)) ≡ flat (b ∷ bs) ++ q ∷ []
    unfolding append_last
    flat-append_last b [] =
        append-nil (b.statements ++ q ∷ []) ∙ ap (λ r. r ++ q ∷ []) (sym (append-nil b.statements))
    flat-append_last b (c ∷ bs) =
        ap (λ r. b.statements ++ r) (flat-append_last c bs)
        ∙ sym (append_assoc b.statements (flat (c ∷ bs)) (q ∷ []))
