-- ===== src/Mtac/Merging/Framed.antt =====
-- src/mtac/merge_basic_blocks.cpp: the functions that the pass is run on, and tests of all blocks.
use eddic.Prelude.{
  ℕ, ◌≡◌, refl, ap, arith, Bool, true, false, ◌&&◌, Option, none, some, List, [], ◌∷◌, ◌==◌, length,
  if◌then◌else◌, Bool-cases, inl, inr,
}
use eddic.Word.{minus_one}
use eddic.Mtac.Operator
use eddic.Mtac.Operator.{same}
use eddic.Mtac.Quadruple.{Quadruple}
use eddic.Mtac.Function.{Block, Function, indexes, find, minus_two}
use eddic.Mtac.Function.Edges.{all_blocks}
use eddic.Mtac.Function.Valid.{IsValid}
use eddic.Mtac.DeadBlocks.Framed.{head_of, last_of}
use eddic.Mtac.Merging.{Callees, is_safe_call}
use eddic.Mtac.Merging.Places.{rest_from}
use eddic.Mtac.Merging.Code.{Places, shape, drop_place, edit_place}

abbrev is_some : Option Bool → Bool
is_some none = false
is_some (some b) = true

-- whether the program has the function of every CALL
abbrev pub calls_found : Callees → {D : Type 0} → List (Quadruple D) → Bool
calls_found c [] = true
calls_found c (q ∷ rest) =
    (if same q.op Operator.call then is_some (is_safe_call c q) else true) && calls_found c rest

-- A valid function between its entry and its exit, whose calls are of functions that the program has.
pub record IsFramed {D : Type 0} (c : Callees) (f : Function D) : Type 0 where
  pub valid : IsValid f
  pub head : head_of (indexes f.blocks) ≡ some minus_one
  pub last : last_of (indexes f.blocks) ≡ some minus_two
  pub known : all_blocks (calls_found c) f.blocks ≡ true

pub rest_from-head : (is : List ℕ) (h : ℕ) → head_of is ≡ some h → rest_from is h ≡ length is
rest_from-head [] h e = cc
rest_from-head (i ∷ is) h e = ground (arith, e)

module _ {D : Type 0} (t : List (Quadruple D) → Bool) where
  abbrev pub all_places : Places D → Bool
  all_places [] = true
  all_places ((i, qs) ∷ rest) = t qs && all_places rest

  pub all_blocks-shape : (bs : List (Block D)) → all_blocks t bs ≡ all_places (shape bs)
  all_blocks-shape [] = refl
  all_blocks-shape (b ∷ bs) = ap (λ x. t b.statements && x) (all_blocks-shape bs)

  pub all_places-drop :
      (p : ℕ) (bs : Places D) → all_places bs ≡ true → all_places (drop_place p bs) ≡ true
  all_places-drop p [] h = refl
  all_places-drop p ((i, qs) ∷ bs) h = ground (arith, all_places-drop p bs, h)

  pub all_places-edit :
      (g : List (Quadruple D) → List (Quadruple D)) (p : ℕ) (bs : Places D)
      → ((qs : List (Quadruple D)) → t qs ≡ true → t (g qs) ≡ true)
      → all_places bs ≡ true
      → all_places (edit_place g p bs) ≡ true
  all_places-edit g p [] k h = refl
  all_places-edit g p ((i, qs) ∷ bs) k h = ground (arith, all_places-edit g p bs k, k qs, h)

  pub all_blocks-find :
      (p : ℕ) (b : Block D) (bs : List (Block D))
      → find bs p ≡ some b
      → all_blocks t bs ≡ true
      → t b.statements ≡ true
  unfolding find
  all_blocks-find p b [] f h = cc
  all_blocks-find p b (a ∷ bs) f h = elim (Bool-cases (a.index == p)) [
    | inl here ↦
        let e : a ≡ b = (let k = rw here at f in cc) in
        let k : t a.statements ≡ true = ground (arith, h) in rw (← e) k
    | inr there ↦ all_blocks-find p b bs (rw there at f) (ground (arith, h))
  ]
