-- ===== src/Mtac/Function/Merge.antt =====
-- src/mtac/Function.cpp: the blocks that a function makes, and merge_basic_blocks.
use Prim.Native.Nat.{ℕ, suc, ◌-◌}
use eddic.Prelude.{
  Bool, true, false, ◌||◌, Option, none, some, List, [], ◌∷◌, ◌++◌, ◌==◌, contains, if◌then◌else◌,
  ◌>>=◌,
}
use eddic.Word.{minus_one}
use eddic.Mtac.Quadruple.{Quadruple}
use eddic.Mtac.Function.{
  Block, Function, indexes, first_index, find, next_of, prev_of, make_edge, remove_block, minus_two,
}

-- comparison of a pointer that may be null with one that is not
abbrev pub points_to : Option ℕ → ℕ → Bool
points_to none q = false
points_to (some p) q = p == q

module _ {D : Type 0} where
  abbrev pub block_of : ℕ → Block D
  block_of i = record { index = i; statements = []; successors = []; predecessors = [] }

  abbrev pub no_blocks : Function D
  no_blocks = record { blocks = []; count = 0; index = 0 }

  unfoldable pub create_entry_bb : Function D → Function D
  create_entry_bb f = record f { blocks = block_of minus_one ∷ []; count = suc f.count }

  unfoldable pub create_exit_bb : Function D → Function D
  create_exit_bb f = record f { blocks = f.blocks ++ block_of minus_two ∷ []; count = suc f.count }

  -- new_bb, which counts, and append_bb, which puts the new block behind the last
  unfoldable pub new_bb : Function D → Block D × Function D
  new_bb f = (block_of (suc f.index), record f { index = suc f.index })

  unfoldable pub append_bb : Function D → Function D
  unfolding new_bb
  append_bb f = record f {
    blocks = f.blocks ++ (new_bb f).0 ∷ [];
    count = suc f.count;
    index = suc f.index;
  }

  -- the place of a block in the list, in front of the one that `p` points to
  unfoldable pub insert_from : ℕ → Block D → List (Block D) → List (Block D)
  insert_from p block [] = []
  insert_from p block (b ∷ bs) =
      let rest = b ∷ insert_from p block bs in if b.index == p then block ∷ b ∷ bs else rest

  -- Nothing stands before the entry, the first block.
  unfoldable pub insert_before : ℕ → Block D → Function D → Option (Function D)
  unfolding insert_from
  insert_before p block f =
      if contains (indexes f.blocks) p
      then (if points_to (first_index f.blocks) p
          then none
          else some (record f { blocks = insert_from p block f.blocks; count = suc f.count }))
      else none

  unfoldable pub edit_statements :
      (List (Quadruple D) → List (Quadruple D)) → ℕ → List (Block D) → List (Block D)
  edit_statements g p [] = []
  edit_statements g p (b ∷ bs) =
      (if b.index == p then record b { statements = g b.statements } else b)
      ∷ edit_statements g p bs

  -- The loop over the successors of the source, whose next block is left to `remove`.
  unfoldable pub adopt : ℕ → Option ℕ → List ℕ → List (Block D) → Option (List (Block D))
  unfolding make_edge
  adopt q next [] bs = some bs
  adopt q next (s ∷ rest) bs =
      (if points_to next s then some bs else make_edge q s bs) >>= adopt q next rest

  -- What the block `q` runs once it has the statements of the source.
  abbrev pub joined : Bool → List (Quadruple D) → List (Quadruple D) → List (Quadruple D)
  joined before source statements = if before then source ++ statements else statements ++ source

  abbrev pub is_empty : List (Quadruple D) → Bool
  is_empty [] = true
  is_empty (x ∷ xs) = false

  unfoldable pub merge_blocks : ℕ → ℕ → List (Block D) → Option (List (Block D))
  unfolding find next_of adopt edit_statements remove_block
  merge_blocks p q bs = do
    source ← find bs p
    adopted ←
        if points_to (next_of bs p) q || points_to (prev_of bs p) q
        then (if is_empty source.statements
            then some bs
            else adopt q (next_of bs p) source.successors bs)
        else none
    remove_block p
        (edit_statements (joined (points_to (next_of bs p) q) source.statements) q adopted)

  -- mtac::Function::merge_basic_blocks of the source `p` into the block `q`
  unfoldable pub merge_basic_blocks : ℕ → ℕ → Function D → Option (Function D)
  unfolding merge_blocks
  merge_basic_blocks p q f = do
    bs ← merge_blocks p q f.blocks
    some (record f { blocks = bs; count = f.count - 1 })
