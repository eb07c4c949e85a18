-- ===== src/Mtac/Merging/Merges.antt =====
-- src/mtac/Function.cpp: merging blocks between the entry and the exit does not fail and keeps the
-- statements.
use eddic.Mtac.Merging.Framed.{
  calls_found, IsFramed, rest_from-head, all_places, all_blocks-shape, all_places-drop,
  all_places-edit, all_blocks-find,
}
use Prim.Native.Nat.{◌-◌}
use eddic.Prelude.{
  ℕ, ◌≡◌, refl, sym, ap, ◌∙◌, arith, Bool, true, false, ◌||◌, Option, some, List, [], ◌∷◌, ◌++◌,
  ◌==◌, contains, if◌then◌else◌, Bool-cases, inl, inr, ==_iff, ◌>>=◌,
}
use eddic.Word.{minus_one}
use eddic.Mtac.Quadruple.{Quadruple}
use eddic.Mtac.Function.{Block, Function, indexes, find, next_of, prev_of, remove_block, minus_two}
use eddic.Mtac.Function.Edges.{has, make_edge-IsAdded}
use eddic.Mtac.Function.Loops.{HasAll}
use eddic.Mtac.Function.Linked.{IsLinked, find-has, next_of-has, next_of_self}
use eddic.Mtac.Function.Removed.{remove_block_lem, HasAll-successors}
use eddic.Mtac.Function.Merge.{
  points_to, edit_statements, adopt, is_empty, joined, merge_blocks, merge_basic_blocks,
}
use eddic.Mtac.Function.Merged.{adopt-IsLinked, edit_statements-IsLinked, edit_statements-same}
use eddic.Mtac.DeadBlocks.Framed.{head_of, last_of, without, prev_of_exists, next_of_exists}
use eddic.Mtac.Merging.{Callees}
use eddic.Mtac.Merging.Places.{
  rest_from, rest_from-le, rest_from-next_of, next_of-prev_of, next_of-apart,
}
use eddic.Mtac.Merging.Code.{
  shape, drop_place, edit_place, shape-adopt, shape-edit_statements, shape-remove_block,
}
use eddic.Mtac.Merging.Runs.{statements_at}
use eddic.Mtac.Merging.Refined.{statements_at-find}
use eddic.Mtac.Merging.Kept.{code, code-merged}
use eddic.Mtac.Merging.Removes.{calls_found-append, IsLess, less}

module _ {D : Type 0} (c : Callees) where
  adopt_total :
      (q : ℕ) (next : Option ℕ) (xs : List ℕ) (bs : List (Block D))
      → has bs q ≡ true
      → HasAll bs xs
      → (cs : List (Block D)) × (adopt q next xs bs ≡ some cs)
  unfolding adopt
  adopt_total q next [] bs h all = (bs, refl)
  adopt_total q next (x ∷ xs) bs h all = elim (Bool-cases (points_to next x)) [
    | inl falls ↦
        let (cs, done) = adopt_total q next xs bs h (λ y m. all y (ground (arith, m))) in
        (cs, rw (falls, ◌>>=◌) done)
    | inr jumps ↦
        let (ds, made, r) = make_edge-IsAdded q x bs h (all x (ground arith)) in
        let i = λ (y : ℕ). ap (λ l. contains l y) r.same_indexes in
        let (cs, done) =
          adopt_total q next xs ds (i q ∙ h) (λ y m. i y ∙ all y (ground (arith, m))) in
        (cs, rw (jumps, made, ◌>>=◌) done)
  ]

  -- The block `n` behind the block `p` is not the entry.
  pub next_of-entry :
      (p n : ℕ) (f : Function D)
      → IsFramed c f
      → next_of f.blocks p ≡ some n
      → (minus_one == n) ≡ false
  next_of-entry p n f v h = elim (Bool-cases (minus_one == n)) [
    | inl entry ↦
        let e = ap (λ x. rest_from (indexes f.blocks) x) ((==_iff minus_one n).0 entry) in
        absurd (
          omega (
            arith,
            e,
            rest_from-head (indexes f.blocks) minus_one v.head,
            rest_from-next_of p n f.blocks v.valid.distinct h,
            rest_from-le (indexes f.blocks) p,
          ))
    | inr other ↦ other
  ]

  -- The edges that the block `p` gets.
  adopted_total :
      (p n : ℕ) (b : Block D) (bs : List (Block D)) (empty : Bool)
      → has bs p ≡ true
      → IsLinked bs
      → HasAll bs b.successors
      → (ms : List (Block D)) × ((if empty then some bs else adopt p (next_of bs n) b.successors bs)
          ≡ some ms)
        × IsLinked ms
        × (indexes ms ≡ indexes bs)
        × (shape ms ≡ shape bs)
  adopted_total p n b bs true h l all = (bs, refl, l, refl, refl)
  adopted_total p n b bs false h l all =
      let (ms, done) = adopt_total p (next_of bs n) b.successors bs h all in
      let (k, i) = adopt-IsLinked p (next_of bs n) b.successors bs ms l done in
      (ms, done, k, i, shape-adopt p (next_of bs n) b.successors bs ms done)

  merge_blocks_lem :
      (p n : ℕ) (b : Block D) (bs ms cs : List (Block D))
      → find bs n ≡ some b
      → (points_to (next_of bs n) p || points_to (prev_of bs n) p) ≡ true
      → (if is_empty b.statements then some bs else adopt p (next_of bs n) b.successors bs)
        ≡ some ms
      → remove_block n (edit_statements (joined (points_to (next_of bs n) p) b.statements) p ms)
        ≡ some cs
      → merge_blocks n p bs ≡ some cs
  unfolding merge_blocks
  merge_blocks_lem p n b bs ms cs found sibling adopted done =
      rw (found, sibling, ◌>>=◌) (rw (adopted, ◌>>=◌) done)

  -- The next block is merged in.
  pub merge_lem :
      (p n : ℕ) (f : Function D)
      → IsFramed c f
      → next_of f.blocks p ≡ some n
      → (minus_two == n) ≡ false
      → (g : Function D) × (merge_basic_blocks n p f ≡ some g)
        × (shape g.blocks
            ≡ drop_place n
                (edit_place (λ qs. qs ++ statements_at (shape f.blocks) n) p (shape f.blocks)))
        × IsLess c n f g
  unfolding merge_basic_blocks
  merge_lem p n f v hn not_exit =
      let bs = f.blocks in
      let d = v.valid.distinct in
      let there = next_of-has bs p n hn in
      let not_entry = next_of-entry p n f v hn in
      let (b, found, fs, _) = find-has bs n there in
      let all : HasAll bs b.successors =
        λ x m. HasAll-successors bs n v.valid.linked x (ap (λ l. contains l x) fs ∙ m) in
      let (ms, adopted, l, i, s) =
        adopted_total p n b bs (is_empty b.statements) (next_of_self bs p n hn) v.valid.linked
          all in
      let behind = next_of-apart p n bs d hn in
      let before : points_to (prev_of bs n) p ≡ true =
        rw (next_of-prev_of p n bs d hn) (ground arith) in
      let g = λ (qs : List (Quadruple D)). qs ++ b.statements in
      let es = edit_statements g p ms in
      let j : indexes es ≡ indexes bs = (edit_statements-same g p ms).0 ∙ i in
      let has_n : has es n ≡ true = ap (λ l. contains l n) j ∙ there in
      let (prev, hp) = prev_of_exists minus_one n es has_n (ap head_of j ∙ v.head) not_entry in
      let (next, hx) = next_of_exists minus_two n es has_n (ap last_of j ∙ v.last) not_exit in
      let (cs, done, k, u, _) =
        remove_block_lem n prev next es (rw j d) (edit_statements-IsLinked g p ms l) hp hx in
      let joining =
        ap (λ x. remove_block n (edit_statements (joined x b.statements) p ms)) behind ∙ done in
      let sh : shape cs ≡ drop_place n (edit_place g p (shape bs)) =
        shape-remove_block n es cs done
        ∙ ap (drop_place n) (shape-edit_statements g p ms ∙ ap (edit_place g p) s) in
      let known =
        ap (all_places (calls_found c)) sh
        ∙ all_places-drop (calls_found c) n (edit_place g p (shape bs)) (
            all_places-edit (calls_found c) g p (shape bs)
              (λ qs m.
                calls_found-append c qs b.statements m
                  (all_blocks-find (calls_found c) n b bs found v.known))
              (sym (all_blocks-shape (calls_found c) bs) ∙ v.known)) in
      (
        record f { blocks = cs; count = f.count - 1 },
        rw (merge_blocks_lem p n b bs ms cs found (rw (behind) before) adopted joining, ◌>>=◌) refl,
        sh
            ∙ ap (λ l. drop_place n (edit_place (λ qs. qs ++ l) p (shape bs)))
                (sym (statements_at-find n b bs found)),
        less c n f cs v there not_entry not_exit (u ∙ ap (without n) j) k known
            (ap code sh ∙ code-merged p n b bs d hn found),
      )
