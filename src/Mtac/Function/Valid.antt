-- ===== src/Mtac/Function/Valid.antt =====
-- src/mtac/Function.cpp and src/mtac/ControlFlowGraph.cpp: what every edit of a function keeps.
use mathlib.Core.Bool.{not}
use eddic.Prelude.{
  ℕ, suc, ◌-◌, ◌≤◌, ◌<◌, ◌≡◌, refl, sym, ap, ◌∙◌, arith, true, false, ◌⊎◌, inl, inr, some, List, [],
  ◌∷◌, ◌==◌, contains, retain, length, Bool-cases, ==_iff, >>=-eq-some, IsDistinct,
  retain-IsDistinct, contains-retain,
}
use eddic.Mtac.Function.{
  Block, Function, indexes, make_edge, remove_edge, build_edges, build_control_flow_graph,
  remove_block, remove, minus_two,
}
use eddic.Mtac.Function.Edges.{count, has, out-remove_edge, into-remove_edge, indexes-remove_edge}
use eddic.Mtac.Function.Linked.{IsLinked, make_edge-IsLinked, build_edges-IsLinked}
use eddic.Mtac.Function.Removed.{remove_block-IsLinked}
use eddic.Mtac.Function.Merge.{
  block_of, insert_from, insert_before, merge_blocks, merge_basic_blocks,
}
use eddic.Mtac.Function.Merged.{merge_blocks-IsLinked}
use eddic.Mtac.Function.Inserted.{
  insert_from-indexes, insert_from-IsDistinct, length-insert_from, insert_from-successors,
  insert_from-predecessors,
}

-- Every index is one that new_bb has given, or that of the entry or the exit.
abbrev pub AreNumbered : ℕ → List ℕ → Type 0
AreNumbered last xs = (x : ℕ) → contains xs x ≡ true → (x ≤ last) ⊎ (minus_two ≤ x)

pub record IsValid {D : Type 0} (f : Function D) : Type 0 where
  pub distinct : IsDistinct (indexes f.blocks)
  pub linked : IsLinked f.blocks
  pub counted : f.count ≡ length f.blocks
  pub numbered : AreNumbered f.index (indexes f.blocks)

-- The edits of a function that has its blocks.
pub data Edit {D : Type 0} : Function D → Function D → Type 0 where
  built : {f g : Function D} → build_control_flow_graph f ≡ some g → Edit f g
  edge_made :
      {f : Function D} (a b : ℕ) (bs : List (Block D))
      → make_edge a b f.blocks ≡ some bs
      → Edit f (record f { blocks = bs })
  edge_removed :
      {f : Function D} (a b : ℕ) → Edit f (record f { blocks = remove_edge a b f.blocks })
  block_inserted :
      {f g : Function D} (p : ℕ)
      → suc f.index < minus_two
      → insert_before p (block_of (suc f.index)) (record f { index = suc f.index }) ≡ some g
      → Edit f g
  block_removed : {f g : Function D} (p : ℕ) → remove p f ≡ some g → Edit f g
  blocks_merged : {f g : Function D} (p q : ℕ) → merge_basic_blocks p q f ≡ some g → Edit f g

pub data Edits {D : Type 0} (f : Function D) : Function D → Type 0 where
  unchanged : Edits f f
  then_edit : {g h : Function D} → Edits f g → Edit g h → Edits f h

pub retain-absent :
    (p : ℕ) (xs : List ℕ) → contains xs p ≡ false → retain (λ x. not (x == p)) xs ≡ xs
retain-absent p [] h = refl
retain-absent p (x ∷ xs) h = ground (arith, retain-absent p xs)

pub length-retain_other :
    (p : ℕ) (xs : List ℕ)
    → IsDistinct xs
    → contains xs p ≡ true
    → length xs ≡ suc (length (retain (λ x. not (x == p)) xs))
length-retain_other p [] d h = cc
length-retain_other p (x ∷ xs) d h = elim (Bool-cases (x == p)) [
  | inl same ↦
      let e : x ≡ p = (==_iff x p).0 same in
      let absent : contains xs p ≡ false = sym (ap (contains xs) e) ∙ d.0 in
      rw same (ap (λ (l : List ℕ). suc (length l)) (sym (retain-absent p xs absent)))
  | inr other ↦ ground (arith, length-retain_other p xs d.1)
]

module _ {D : Type 0} where
  pub length-indexes : (bs : List (Block D)) → length (indexes bs) ≡ length bs
  length-indexes [] = refl
  length-indexes (b ∷ bs) = ap suc (length-indexes bs)

  -- A function with the same blocks but for their edges and statements.
  pub IsValid-of_indexes :
      (f : Function D) (bs : List (Block D))
      → IsValid f
      → indexes bs ≡ indexes f.blocks
      → IsLinked bs
      → IsValid (record f { blocks = bs })
  IsValid-of_indexes f bs v e l = record {
    distinct = rw e v.distinct;
    linked = l;
    counted = v.counted ∙ sym (length-indexes f.blocks) ∙ sym (ap length e) ∙ length-indexes bs;
    numbered = rw e v.numbered;
  }

  -- The block `p` is gone from the list.
  pub IsValid-of_removed :
      (f : Function D) (p : ℕ) (bs : List (Block D))
      → IsValid f
      → has f.blocks p ≡ true
      → indexes bs ≡ retain (λ x. not (x == p)) (indexes f.blocks)
      → IsLinked bs
      → IsValid (record f { blocks = bs; count = f.count - 1 })
  IsValid-of_removed f p bs v h e l = record {
    distinct = rw e (retain-IsDistinct (λ x. not (x == p)) (indexes f.blocks) v.distinct);
    linked = l;
    counted = omega (
      arith,
      v.counted,
      length-indexes f.blocks,
      length-indexes bs,
      ap length e,
      length-retain_other p (indexes f.blocks) v.distinct h,
    );
    numbered = λ x m. v.numbered x (
        let k = contains-retain (λ x. not (x == p)) (indexes f.blocks) x in
        ground (arith, k, ap (λ l. contains l x) e, m));
  }

  remove-IsValid : (p : ℕ) (f g : Function D) → IsValid f → remove p f ≡ some g → IsValid g
  unfolding remove
  remove-IsValid p f g v h =
      let (bs, done, e) = >>=-eq-some (remove_block p f.blocks) _ h in
      let (l, i, m) = remove_block-IsLinked p f.blocks bs v.distinct v.linked done in
      let same : record f { blocks = bs; count = f.count - 1 } ≡ g = cc in
      rw (← same) (IsValid-of_removed f p bs v m i l)

  merge_basic_blocks-IsValid :
      (p q : ℕ) (f g : Function D) → IsValid f → merge_basic_blocks p q f ≡ some g → IsValid g
  unfolding merge_basic_blocks
  merge_basic_blocks-IsValid p q f g v h =
      let (bs, done, e) = >>=-eq-some (merge_blocks p q f.blocks) _ h in
      let (l, i, m) = merge_blocks-IsLinked p q f.blocks bs v.distinct v.linked done in
      let same : record f { blocks = bs; count = f.count - 1 } ≡ g = cc in
      rw (← same) (IsValid-of_removed f p bs v m i l)

  insert_before-IsValid :
      (p : ℕ) (f g : Function D)
      → IsValid f
      → suc f.index < minus_two
      → insert_before p (block_of (suc f.index)) (record f { index = suc f.index }) ≡ some g
      → IsValid g
  unfolding insert_before
  insert_before-IsValid p f g v bound h =
      let i = suc f.index in
      let bs = f.blocks in
      let new : has bs i ≡ false = ground (arith, v.numbered i) in
      elim (Bool-cases (has bs p)) [
        | inl there ↦
            let same : record f {
              blocks = insert_from p (block_of i) bs;
              count = suc f.count;
              index = i;
            }
                ≡ g =
              ground (arith, h) in
            rw (← same) (record {
              distinct = insert_from-IsDistinct p (block_of i) bs v.distinct new;
              linked = λ a b.
                  ap (count b) (insert_from-successors p i bs a new)
                  ∙ v.linked a b
                  ∙ sym (ap (count a) (insert_from-predecessors p i bs b new));
              counted = omega (arith, v.counted, length-insert_from p (block_of i) bs there);
              numbered =
                  λ x m. ground (arith, v.numbered x, insert_from-indexes p (block_of i) bs x, m);
            })
        | inr absent ↦ ground (arith, h)
      ]

  Edit-IsValid : (f g : Function D) → IsValid f → Edit f g → IsValid g
  unfolding build_control_flow_graph
  Edit-IsValid f g v (built h) =
      let (bs, done, e) = >>=-eq-some (build_edges f.blocks f.blocks) _ h in
      let (l, i) = build_edges-IsLinked f.blocks f.blocks bs v.linked done in
      let same : record f { blocks = bs } ≡ g = cc in rw (← same) (IsValid-of_indexes f bs v i l)
  Edit-IsValid f g v (edge_made a b bs h) =
      let (l, i) = make_edge-IsLinked a b f.blocks bs v.linked h in IsValid-of_indexes f bs v i l
  Edit-IsValid f g v (edge_removed a b) =
      IsValid-of_indexes f (remove_edge a b f.blocks) v (indexes-remove_edge a b f.blocks) (λ x y.
        ground (
          arith,
          out-remove_edge a b f.blocks x y,
          into-remove_edge a b f.blocks x y,
          v.linked x y,
        ))
  Edit-IsValid f g v (block_inserted p bound h) = insert_before-IsValid p f g v bound h
  Edit-IsValid f g v (block_removed p h) = remove-IsValid p f g v h
  Edit-IsValid f g v (blocks_merged p q h) = merge_basic_blocks-IsValid p q f g v h

  -- Building the control flow graph, making and removing edges, and inserting, removing and merging blocks
  -- keep a function valid: the indexes of its blocks are distinct and were given by new_bb or are those of
  -- the entry and the exit, their number is that of the blocks, and the successors and the predecessors
  -- are the two ends of the same edges.
  pub Edits-IsValid : (f g : Function D) → IsValid f → Edits f g → IsValid g
  Edits-IsValid f g v unchanged = v
  Edits-IsValid f g v (then_edit es e) = Edit-IsValid _ g (Edits-IsValid f _ v es) e
