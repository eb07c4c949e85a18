-- ===== src/Mtac/Merging/Code.antt =====
-- src/mtac/Function.cpp: the statements of the blocks, in the order of the list, after the operations
-- that the pass calls.
use eddic.Prelude.{
  ℕ, ◌≡◌, refl, sym, ap, ◌∙◌, arith, ◌&&◌, Option, some, List, [], ◌∷◌, ◌==◌, if◌then◌else◌,
  Bool-cases, inl, inr, >>=-eq-some,
}
use eddic.Mtac.Quadruple.{Quadruple}
use eddic.Mtac.Function.{
  Block, push_back, erase_all, edit_successors, edit_predecessors, make_edge, redirect,
  forget_in_successors, forget_in_predecessors, unlink, remove_block, find, next_of, prev_of,
}
use eddic.Mtac.Function.Edges.{has}
use eddic.Mtac.Function.Merge.{edit_statements, adopt, points_to}

-- The indexes and the statements of the blocks: all but the edges.
abbrev pub Places : Type 0 → Type 0
Places D = List (ℕ × List (Quadruple D))

module _ {D : Type 0} where
  abbrev pub shape : List (Block D) → Places D
  shape [] = []
  shape (b ∷ bs) = (b.index, b.statements) ∷ shape bs

  abbrev pub drop_place : ℕ → Places D → Places D
  drop_place p [] = []
  drop_place p ((i, qs) ∷ rest) = if i == p then drop_place p rest else (i, qs) ∷ drop_place p rest

  abbrev pub edit_place : (List (Quadruple D) → List (Quadruple D)) → ℕ → Places D → Places D
  edit_place g p [] = []
  edit_place g p ((i, qs) ∷ rest) = (i, if i == p then g qs else qs) ∷ edit_place g p rest

  shape-edit_successors :
      (g : List ℕ → List ℕ) (p : ℕ) (bs : List (Block D))
      → shape (edit_successors g p bs) ≡ shape bs
  unfolding edit_successors
  shape-edit_successors g p [] = refl
  shape-edit_successors g p (b ∷ bs) = ground (arith, shape-edit_successors g p bs)

  shape-edit_predecessors :
      (g : List ℕ → List ℕ) (p : ℕ) (bs : List (Block D))
      → shape (edit_predecessors g p bs) ≡ shape bs
  unfolding edit_predecessors
  shape-edit_predecessors g p [] = refl
  shape-edit_predecessors g p (b ∷ bs) = ground (arith, shape-edit_predecessors g p bs)

  shape-make_edge :
      (f t : ℕ) (bs cs : List (Block D)) → make_edge f t bs ≡ some cs → shape cs ≡ shape bs
  unfolding make_edge
  shape-make_edge f t bs cs h = elim (Bool-cases (has bs f && has bs t)) [
    | inl both ↦
        let k = rw both at h in
        let e : edit_predecessors (push_back f) t (edit_successors (push_back t) f bs) ≡ cs = cc in
        rw (← e) (shape-edit_predecessors _ t _ ∙ shape-edit_successors _ f bs)
    | inr neither ↦ let k = rw neither at h in cc
  ]

  shape-forget_in_successors :
      (p : ℕ) (xs : List ℕ) (bs cs : List (Block D))
      → forget_in_successors p xs bs ≡ some cs
      → shape cs ≡ shape bs
  unfolding forget_in_successors
  shape-forget_in_successors p [] bs cs h = let e : bs ≡ cs = cc in ap shape (sym e)
  shape-forget_in_successors p (x ∷ xs) bs cs h = elim (Bool-cases (has bs x)) [
    | inl there ↦
        shape-forget_in_successors p xs _ cs (rw there at h) ∙ shape-edit_predecessors _ x bs
    | inr absent ↦ let k = rw absent at h in cc
  ]

  shape-redirect :
      (p prev next q : ℕ) (bs cs : List (Block D))
      → redirect p prev next q bs ≡ some cs
      → shape cs ≡ shape bs
  unfolding redirect
  shape-redirect p prev next q bs cs h = elim (Bool-cases (has bs q)) [
    | inl there ↦ elim (Bool-cases (q == prev)) [
      | inl falls ↦
          shape-make_edge q next _ cs (rw (there, falls) at h) ∙ shape-edit_successors _ q bs
      | inr jumps ↦
          let k = rw (there, jumps) at h in
          let e : edit_successors (erase_all p) q bs ≡ cs = cc in
          rw (← e) (shape-edit_successors _ q bs)
    ]
    | inr absent ↦ let k = rw absent at h in cc
  ]

  shape-forget_in_predecessors :
      (p prev next : ℕ) (xs : List ℕ) (bs cs : List (Block D))
      → forget_in_predecessors p prev next xs bs ≡ some cs
      → shape cs ≡ shape bs
  unfolding forget_in_predecessors
  shape-forget_in_predecessors p prev next [] bs cs h = let e : bs ≡ cs = cc in ap shape (sym e)
  shape-forget_in_predecessors p prev next (x ∷ xs) bs cs h =
      let (ds, first, later) = >>=-eq-some (redirect p prev next x bs) _ h in
      shape-forget_in_predecessors p prev next xs ds cs later
      ∙ shape-redirect p prev next x bs ds first

  shape-unlink : (p : ℕ) (bs : List (Block D)) → shape (unlink p bs) ≡ drop_place p (shape bs)
  shape-unlink p [] = refl
  shape-unlink p (b ∷ bs) = ground (arith, shape-unlink p bs)

  pub shape-remove_block :
      (p : ℕ) (bs cs : List (Block D))
      → remove_block p bs ≡ some cs
      → shape cs ≡ drop_place p (shape bs)
  unfolding remove_block
  shape-remove_block p bs cs h =
      let (next, hn, h1) = >>=-eq-some (next_of bs p) _ h in
      let (prev, hp, h2) = >>=-eq-some (prev_of bs p) _ h1 in
      let (b, found, h3) = >>=-eq-some (find bs p) _ h2 in
      let (ds, done, h4) = >>=-eq-some (forget_in_successors p b.successors bs) _ h3 in
      let (c, found', h5) = >>=-eq-some (find ds p) _ h4 in
      let (es, done', h6) =
        >>=-eq-some (forget_in_predecessors p prev next c.predecessors ds) _ h5 in
      let e : unlink p es ≡ cs = cc in
      ap shape (sym e)
      ∙ shape-unlink p es
      ∙ ap (drop_place p) (
          shape-forget_in_predecessors p prev next c.predecessors ds es done'
          ∙ shape-forget_in_successors p b.successors bs ds done)

  pub shape-adopt :
      (q : ℕ) (next : Option ℕ) (xs : List ℕ) (bs cs : List (Block D))
      → adopt q next xs bs ≡ some cs
      → shape cs ≡ shape bs
  unfolding adopt
  shape-adopt q next [] bs cs h = let e : bs ≡ cs = cc in ap shape (sym e)
  shape-adopt q next (x ∷ xs) bs cs h = elim (Bool-cases (points_to next x)) [
    | inl falls ↦ shape-adopt q next xs bs cs (rw falls at h)
    | inr jumps ↦
        let (ds, first, later) = >>=-eq-some (make_edge q x bs) (adopt q next xs) (rw jumps at h) in
        shape-adopt q next xs ds cs later ∙ shape-make_edge q x bs ds first
  ]

  pub shape-edit_statements :
      (g : List (Quadruple D) → List (Quadruple D)) (p : ℕ) (bs : List (Block D))
      → shape (edit_statements g p bs) ≡ edit_place g p (shape bs)
  unfolding edit_statements
  shape-edit_statements g p [] = refl
  shape-edit_statements g p (b ∷ bs) = ground (arith, shape-edit_statements g p bs)
