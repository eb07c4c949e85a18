-- ===== src/Mtac/Merging/Removes.antt =====
-- src/mtac/Function.cpp: removing a block between the entry and the exit, and dropping its last statement,
-- does not fail and keeps the statements.
use eddic.Mtac.Merging.Framed.{
  calls_found, IsFramed, all_places, all_blocks-shape, all_places-drop, all_places-edit,
}
use Prim.Native.Nat.{◌-◌}
use eddic.Prelude.{
  ℕ, suc, ◌≡◌, refl, sym, ap, ◌∙◌, arith, true, false, some, List, [], ◌∷◌, ◌++◌, ◌==◌, length,
  ◌>>=◌,
}
use eddic.Word.{minus_one}
use eddic.Mtac.Operator
use eddic.Mtac.Operator.{same}
use eddic.Mtac.Quadruple.{Quadruple}
use eddic.Mtac.Function.{Block, Function, indexes, find, remove, back, minus_two}
use eddic.Mtac.Function.Edges.{has}
use eddic.Mtac.Function.Linked.{IsLinked}
use eddic.Mtac.Function.Removed.{remove_block_lem}
use eddic.Mtac.Function.Merge.{edit_statements}
use eddic.Mtac.Function.Merged.{edit_statements-IsLinked, edit_statements-same}
use eddic.Mtac.Function.Valid.{IsValid-of_removed, IsValid-of_indexes}
use eddic.Mtac.DeadBlocks.First.{count_pred, length_pos}
use eddic.Mtac.DeadBlocks.Framed.{
  head_of, last_of, without, head_of-without, last_of-without, prev_of_exists, next_of_exists,
}
use eddic.Mtac.Merging.{Callees, pop_back, size_no_nop}
use eddic.Mtac.Merging.Code.{shape, drop_place, shape-edit_statements, shape-remove_block}
use eddic.Mtac.Merging.Kept.{code, code-dropped, code-popped}

module _ {D : Type 0} (c : Callees) where
  pub calls_found-append :
      (xs ys : List (Quadruple D))
      → calls_found c xs ≡ true
      → calls_found c ys ≡ true
      → calls_found c (xs ++ ys) ≡ true
  calls_found-append [] ys h k = k
  calls_found-append (x ∷ xs) ys h k = ground (arith, calls_found-append xs ys, h, k)

  calls_found-pop_back :
      (xs : List (Quadruple D)) → calls_found c xs ≡ true → calls_found c (pop_back xs) ≡ true
  calls_found-pop_back [] h = refl
  calls_found-pop_back (x ∷ []) h = refl
  calls_found-pop_back (x ∷ y ∷ xs) h = ground (arith, calls_found-pop_back (y ∷ xs), h)

  -- What an operation keeps that takes one block away.
  pub record IsLess (p : ℕ) (f g : Function D) : Type 0 where
    pub less_framed : IsFramed c g
    pub less_code : code (shape g.blocks) ≡ code (shape f.blocks)
    pub less_indexes : indexes g.blocks ≡ without p (indexes f.blocks)
    pub less_count : suc g.count ≡ f.count

  -- A block is gone from between the entry and the exit.
  pub less :
      (p : ℕ) (f : Function D) (bs : List (Block D))
      → IsFramed c f
      → has f.blocks p ≡ true
      → (minus_one == p) ≡ false
      → (minus_two == p) ≡ false
      → indexes bs ≡ without p (indexes f.blocks)
      → IsLinked bs
      → all_places (calls_found c) (shape bs) ≡ true
      → code (shape bs) ≡ code (shape f.blocks)
      → IsLess p f (record f { blocks = bs; count = f.count - 1 })
  less p f bs v h not_entry not_exit i l known same_code = record {
    less_framed = record {
      valid = IsValid-of_removed f p bs v.valid h i l;
      head = ap head_of i ∙ head_of-without p minus_one (indexes f.blocks) v.head not_entry;
      last = ap last_of i ∙ last_of-without p minus_two (indexes f.blocks) v.last not_exit;
      known = all_blocks-shape (calls_found c) bs ∙ known;
    };
    less_code = same_code;
    less_indexes = i;
    less_count = count_pred f.count (length f.blocks) v.valid.counted (length_pos f.blocks p h);
  }

  -- A block of NOP is removed.
  pub remove_lem :
      (p : ℕ) (f : Function D) (b : Block D)
      → IsFramed c f
      → has f.blocks p ≡ true
      → find f.blocks p ≡ some b
      → size_no_nop b.statements ≡ 0
      → (minus_one == p) ≡ false
      → (minus_two == p) ≡ false
      → (g : Function D) × (remove p f ≡ some g)
        × (shape g.blocks ≡ drop_place p (shape f.blocks))
        × IsLess p f g
  unfolding remove
  remove_lem p f b v h found z not_entry not_exit =
      let bs = f.blocks in
      let (prev, hp) = prev_of_exists minus_one p bs h v.head not_entry in
      let (next, hn) = next_of_exists minus_two p bs h v.last not_exit in
      let (cs, done, l, i, _) =
        remove_block_lem p prev next bs v.valid.distinct v.valid.linked hp hn in
      let s = shape-remove_block p bs cs done in
      let known =
        ap (all_places (calls_found c)) s
        ∙ all_places-drop (calls_found c) p (shape bs)
            (sym (all_blocks-shape (calls_found c) bs) ∙ v.known) in
      (
        record f { blocks = cs; count = f.count - 1 },
        rw (done, ◌>>=◌) refl,
        s,
        less p f cs v h not_entry not_exit i l known
            (ap code s ∙ code-dropped p b bs v.valid.distinct found z),
      )

  -- The last statement of a block is a GOTO, and is dropped.
  pub pop_lem :
      (p : ℕ) (f : Function D) (b : Block D) (q : Quadruple D)
      → IsFramed c f
      → find f.blocks p ≡ some b
      → back b.statements ≡ some q
      → same q.op Operator.goto ≡ true
      → IsFramed c (record f { blocks = edit_statements pop_back p f.blocks })
        × (code (shape (edit_statements pop_back p f.blocks)) ≡ code (shape f.blocks))
        × (indexes (edit_statements pop_back p f.blocks) ≡ indexes f.blocks)
  pop_lem p f b q v found last goto =
      let bs = f.blocks in
      let cs = edit_statements pop_back p bs in
      let i : indexes cs ≡ indexes bs = (edit_statements-same pop_back p bs).0 in
      let s = shape-edit_statements pop_back p bs in
      (
        record {
          valid =
              IsValid-of_indexes f cs v.valid i
                (edit_statements-IsLinked pop_back p bs v.valid.linked);
          head = ap head_of i ∙ v.head;
          last = ap last_of i ∙ v.last;
          known =
              all_blocks-shape (calls_found c) cs
              ∙ ap (all_places (calls_found c)) s
              ∙ all_places-edit (calls_found c) pop_back p (shape bs) calls_found-pop_back
                  (sym (all_blocks-shape (calls_found c) bs) ∙ v.known);
        },
        ap code s ∙ code-popped p b q bs v.valid.distinct found last goto,
        i,
      )
