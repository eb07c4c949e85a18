-- ===== src/Mtac/Merging/Kept.antt =====
-- src/mtac/Function.cpp: the statements that the operations of the pass keep, in their order.
use eddic.Mtac.Merging.Code.{Places, shape, drop_place, edit_place}
use mathlib.Core.Bool.{not}
use eddic.Prelude.{
  ℕ, ◌≡◌, refl, sym, ap, ◌∙◌, arith, Bool, true, false, ◌&&◌, some, List, [], ◌∷◌, ◌++◌, ◌==◌,
  retain, Bool-cases, inl, inr, ==_iff, IsDistinct,
}
use eddic.Mtac.Quadruple.{Quadruple}
use eddic.Mtac.Function.{Block, indexes, find, next_of}
use mathlib.Core.List.{append_assoc}
use eddic.Mtac.Operator
use eddic.Mtac.Operator.{same}
use eddic.Mtac.Function.{back}
use eddic.Mtac.Function.Linked.{next_of-has}
use eddic.Mtac.Merging.{pop_back, size_no_nop}
use eddic.Mtac.Merging.Places.{apart}
use eddic.Mtac.Function.Edges.{has}

module _ {D : Type 0} where
  -- A quadruple that the pass may not drop.
  abbrev pub stays : Quadruple D → Bool
  stays q = not (same q.op Operator.nop) && not (same q.op Operator.goto)

  abbrev pub code : Places D → List (Quadruple D)
  code [] = []
  code ((i, qs) ∷ rest) = retain stays qs ++ code rest

  drop_place-absent :
      (p : ℕ) (bs : List (Block D)) → has bs p ≡ false → drop_place p (shape bs) ≡ shape bs
  drop_place-absent p [] h = refl
  drop_place-absent p (b ∷ bs) h = ground (arith, drop_place-absent p bs, h)

  edit_place-absent :
      (g : List (Quadruple D) → List (Quadruple D)) (p : ℕ) (bs : List (Block D))
      → has bs p ≡ false
      → edit_place g p (shape bs) ≡ shape bs
  edit_place-absent g p [] h = refl
  edit_place-absent g p (b ∷ bs) h = ground (arith, edit_place-absent g p bs, h)

  retain-append :
      (xs ys : List (Quadruple D)) → retain stays (xs ++ ys) ≡ retain stays xs ++ retain stays ys
  retain-append [] ys = refl
  retain-append (x ∷ xs) ys = elim (Bool-cases (stays x)) [
    | inl stay ↦ rw stay (ap (λ l. x ∷ l) (retain-append xs ys))
    | inr go ↦ rw go (retain-append xs ys)
  ]

  -- The block `n` behind the block `p` gives its statements to it.
  pub code-merged :
      (p n : ℕ) (c : Block D) (bs : List (Block D))
      → IsDistinct (indexes bs)
      → next_of bs p ≡ some n
      → find bs n ≡ some c
      → code (drop_place n (edit_place (λ qs. qs ++ c.statements) p (shape bs))) ≡ code (shape bs)
  unfolding next_of find
  code-merged p n c [] d h f = cc
  code-merged p n c (b ∷ []) d h f = ground (arith, h)
  code-merged p n c (b ∷ a ∷ bs) d h f = elim (Bool-cases (b.index == p)) [
    | inl here ↦
        let e : a.index ≡ n = (let k = rw here at h in cc) in
        let m = apart b (a ∷ bs) n d (ground arith) in
        let l : (a.index == n) ≡ true = ground arith in
        let r : b.index ≡ p = (==_iff b.index p).0 here in
        let u : has (a ∷ bs) p ≡ false = sym (ap (has (a ∷ bs)) r) ∙ d.0 in
        let v : has bs n ≡ false = sym (ap (has bs) e) ∙ d.1.0 in
        let w : a ≡ c = (let k = rw (m, l) at f in cc) in
        let u' : has bs p ≡ false = ground (arith, u) in
        let x : drop_place n (edit_place (λ qs. qs ++ c.statements) p (shape bs)) ≡ shape bs =
          ap (drop_place n) (edit_place-absent (λ qs. qs ++ c.statements) p bs u')
          ∙ drop_place-absent n bs v in
        rw (m, l, here)
          (ap (λ l. retain stays (b.statements ++ c.statements) ++ code l) x
            ∙ ap (λ l. l ++ code (shape bs)) (retain-append b.statements c.statements)
            ∙ append_assoc (retain stays b.statements) (retain stays c.statements) (code (shape bs))
            ∙ ap
                (λ (y : Block D).
                  retain stays b.statements ++ (retain stays y.statements ++ code (shape bs)))
                (sym w))
    | inr there ↦
        let k = rw there at h in
        let m = apart b (a ∷ bs) n d (next_of-has (a ∷ bs) p n k) in
        rw (there, m)
          (ap (λ l. retain stays b.statements ++ l) (code-merged p n c (a ∷ bs) d.1 k (rw m at f)))
  ]

  -- A block of NOP is dropped.
  retain-empty : (qs : List (Quadruple D)) → size_no_nop qs ≡ 0 → retain stays qs ≡ []
  unfolding size_no_nop
  retain-empty [] h = refl
  retain-empty (q ∷ qs) h = ground (arith, retain-empty qs, h)

  pub code-dropped :
      (p : ℕ) (c : Block D) (bs : List (Block D))
      → IsDistinct (indexes bs)
      → find bs p ≡ some c
      → size_no_nop c.statements ≡ 0
      → code (drop_place p (shape bs)) ≡ code (shape bs)
  unfolding find
  code-dropped p c [] d f z = refl
  code-dropped p c (b ∷ bs) d f z = elim (Bool-cases (b.index == p)) [
    | inl here ↦
        let r : b.index ≡ p = (==_iff b.index p).0 here in
        let e : b ≡ c = (let k = rw here at f in cc) in
        let u : has bs p ≡ false = sym (ap (has bs) r) ∙ d.0 in
        let v : retain stays b.statements ≡ [] =
          ap (λ (x : Block D). retain stays x.statements) e ∙ retain-empty c.statements z in
        rw (here, v) (ap code (drop_place-absent p bs u))
    | inr there ↦
        rw there
          (ap (λ l. retain stays b.statements ++ l) (code-dropped p c bs d.1 (rw there at f) z))
  ]

  retain-pop_back :
      (q : Quadruple D) (qs : List (Quadruple D))
      → back qs ≡ some q
      → stays q ≡ false
      → retain stays (pop_back qs) ≡ retain stays qs
  retain-pop_back q [] h k = cc
  retain-pop_back q (x ∷ []) h k =
      let e : stays x ≡ false = (let f : x ≡ q = cc in ap stays f ∙ k) in rw e refl
  retain-pop_back q (x ∷ y ∷ qs) h k = elim (Bool-cases (stays x)) [
    | inl stay ↦ rw stay (ap (λ l. x ∷ l) (retain-pop_back q (y ∷ qs) h k))
    | inr go ↦ rw go (retain-pop_back q (y ∷ qs) h k)
  ]

  pub code-popped :
      (p : ℕ) (c : Block D) (q : Quadruple D) (bs : List (Block D))
      → IsDistinct (indexes bs)
      → find bs p ≡ some c
      → back c.statements ≡ some q
      → same q.op Operator.goto ≡ true
      → code (edit_place pop_back p (shape bs)) ≡ code (shape bs)
  unfolding find
  code-popped p c q [] d f h g = refl
  code-popped p c q (b ∷ bs) d f h g = elim (Bool-cases (b.index == p)) [
    | inl here ↦
        let r : b.index ≡ p = (==_iff b.index p).0 here in
        let e : b ≡ c = (let k = rw here at f in cc) in
        let u : has bs p ≡ false = sym (ap (has bs) r) ∙ d.0 in
        let go : stays q ≡ false = rw g (ground arith) in
        let v : retain stays (pop_back b.statements) ≡ retain stays b.statements =
          retain-pop_back q b.statements (ap (λ (x : Block D). back x.statements) e ∙ h) go in
        rw here (
          rw (v)
            (ap (λ l. retain stays b.statements ++ code l) (edit_place-absent pop_back p bs u)))
    | inr there ↦
        rw there
          (ap (λ l. retain stays b.statements ++ l) (code-popped p c q bs d.1 (rw there at f) h g))
  ]
