-- ===== src/Mtac/Blocks/Extracted.antt =====
-- src/mtac/BasicBlockExtractor.cpp: the blocks of a function hold its statements, cut behind every jump.
use Prim.Native.String.{String}
use eddic.Prelude.{
  ℕ, suc, ◌<◌, ◌≡◌, refl, sym, ap, ◌∙◌, arith, Bool, true, false, ◌||◌, inl, inr, some, List, [],
  ◌∷◌, ◌++◌, contains, length, length-append, Bool-cases, >>=-eq-some, map,
}
use mathlib.Core.List.{map-append}
use eddic.Mtac.Operator
use eddic.Mtac.Operator.{is_if, is_if_false, same}
use eddic.Mtac.Quadruple.{Quadruple}
use eddic.Mtac.Function.{Block, Function, indexes, minus_two}
use eddic.Mtac.Function.Edges.{count, has, successors_of, predecessors_of}
use eddic.Mtac.Function.Merge.{block_of, create_entry_bb, create_exit_bb}
use eddic.Mtac.Function.Valid.{IsValid}
use eddic.Mtac.Blocks.{
  Labels, ends_block, extract_loop, bind_label, bind_labels, first_state, extract,
}
use eddic.Mtac.Blocks.Cut.{
  any_early, ends_early, flat, has-append, append-IsDistinct, successors-append,
  predecessors-append, any_early-append, flat-append,
}
use eddic.Mtac.Blocks.Loop.{unlabelled, IsCut, extract_loop-IsCut}

module _ {D : Type 0} where
  -- The second loop changes nothing but the targets of jumps.
  ends_block-bind_label :
      (labels : Labels) (q : Quadruple D) → ends_block (bind_label labels q) ≡ ends_block q
  unfolding bind_label
  ends_block-bind_label labels q =
      elim (Bool-cases (same q.op Operator.goto || is_if q.op || is_if_false q.op)) [
        | inl jump ↦ rw jump refl
        | inr other ↦ rw other refl
      ]

  ends_early-bind_label :
      (labels : Labels) (qs : List (Quadruple D))
      → ends_early (map (bind_label labels) qs) ≡ ends_early qs
  ends_early-bind_label labels [] = refl
  ends_early-bind_label labels (q ∷ []) = refl
  ends_early-bind_label labels (q ∷ r ∷ rest) =
      ap (λ b. b || ends_early (map (bind_label labels) (r ∷ rest)))
        (ends_block-bind_label labels q)
      ∙ ap (λ b. ends_block q || b) (ends_early-bind_label labels (r ∷ rest))

  any_early-bind_labels :
      (labels : Labels) (bs : List (Block D)) → any_early (bind_labels labels bs) ≡ any_early bs
  unfolding bind_labels
  any_early-bind_labels labels [] = refl
  any_early-bind_labels labels (b ∷ bs) =
      ap (λ r. r || any_early (bind_labels labels bs)) (ends_early-bind_label labels b.statements)
      ∙ ap (λ r. ends_early b.statements || r) (any_early-bind_labels labels bs)

  flat-bind_labels :
      (labels : Labels) (bs : List (Block D))
      → flat (bind_labels labels bs) ≡ map (bind_label labels) (flat bs)
  unfolding bind_labels
  flat-bind_labels labels [] = refl
  flat-bind_labels labels (b ∷ bs) =
      ap (λ r. map (bind_label labels) b.statements ++ r) (flat-bind_labels labels bs)
      ∙ sym (map-append (bind_label labels) b.statements (flat bs))

  bind_labels-same :
      (labels : Labels) (bs : List (Block D))
      → (indexes (bind_labels labels bs) ≡ indexes bs)
        × (length (bind_labels labels bs) ≡ length bs)
        × ((a : ℕ) → successors_of (bind_labels labels bs) a ≡ successors_of bs a)
        × ((a : ℕ) → predecessors_of (bind_labels labels bs) a ≡ predecessors_of bs a)
  unfolding bind_labels
  bind_labels-same labels [] = (refl, refl, λ a. refl, λ a. refl)
  bind_labels-same labels (b ∷ bs) =
      let (i, n, s, p) = bind_labels-same labels bs in
      (ground (arith, i), ap suc n, λ a. ground (arith, s a), λ a. ground (arith, p a))

  first_state-IsCut : IsCut (first_state {D = D}).function true []
  unfolding create_entry_bb
  first_state-IsCut = record {
    entry = refl;
    distinct = (refl, tt);
    counted = refl;
    numbered = λ x m. inr (ground arith);
    no_successors = λ a. ground arith;
    no_predecessors = λ a. ground arith;
    early = refl;
    leads = λ _. refl;
    kept = refl;
  }

  exit-IsValid :
      (f : Function D) (leader : Bool) (labels : Labels) (before : List (Quadruple D))
      → IsCut f leader before
      → f.index < minus_two
      → IsValid (create_exit_bb (record f { blocks = bind_labels labels f.blocks }))
  unfolding create_exit_bb
  exit-IsValid f leader labels before c bound =
      let bs = f.blocks in
      let ts = bind_labels labels bs in
      let (i, n, s, p) = bind_labels-same labels bs in
      let new : has ts minus_two ≡ false =
        ap (λ l. contains l minus_two) i ∙ ground (arith, c.numbered minus_two) in
      record {
        distinct = append-IsDistinct minus_two ts (rw i c.distinct) new;
        linked = λ a b.
            ap (count b) (successors-append minus_two ts a ∙ s a ∙ c.no_successors a)
            ∙ sym (ap (count a) (predecessors-append minus_two ts b ∙ p b ∙ c.no_predecessors b));
        counted =
            omega (arith, c.counted, n, length-append {0} ts (block_of {D = D} minus_two ∷ []));
        numbered = λ x m.
            ground (arith, c.numbered x, has-append minus_two ts x, ap (λ l. contains l x) i, m);
      }

  -- When a function of fewer than 2 ^ 32 - 2 statements is cut into blocks, the blocks are numbered and
  -- linked, hold its statements but the labels, in their order, with the labels of the jumps replaced by
  -- one table of blocks, and no statement before the last of a block is a branch, a GOTO or a RETURN.
  pub extract_lem :
      (names : ℕ → String) (qs : List (Quadruple D)) (f : Function D)
      → length qs < minus_two
      → extract names qs ≡ some f
      → IsValid f
        × (any_early f.blocks ≡ false)
        × ((labels : Labels) × (flat f.blocks ≡ map (bind_label labels) (unlabelled qs)))
  unfolding extract create_exit_bb
  extract_lem names qs f bound h =
      let (e, done, k) = >>=-eq-some (extract_loop names qs first_state) _ h in
      let (c, b) =
        extract_loop-IsCut names qs first_state e [] first_state-IsCut (omega arith) done in
      let ts = bind_labels e.labels e.function.blocks in
      let same : create_exit_bb (record (e.function) { blocks = ts }) ≡ f = cc in
      rw (← same) (
        exit-IsValid e.function e.next_is_leader e.labels (unlabelled qs) c b,
        any_early-append minus_two ts ∙ any_early-bind_labels e.labels e.function.blocks ∙ c.early,
        (
          e.labels,
          flat-append minus_two ts
              ∙ flat-bind_labels e.labels e.function.blocks
              ∙ ap (map (bind_label e.labels)) c.kept,
        ),
      )
