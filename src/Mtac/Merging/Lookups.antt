-- ===== src/Mtac/Merging/Lookups.antt =====
-- src/mtac/Function.cpp: where a block is found, and what is behind it, once a block is changed or taken
-- away.
use eddic.Prelude.{
  ℕ, ◌≡◌, refl, sym, ap, ◌∙◌, arith, Bool, true, false, Option, none, some, List, [], ◌∷◌, ◌==◌,
  contains, Bool-cases, inl, inr, ==_iff, IsDistinct,
}
use eddic.Mtac.Quadruple.{Quadruple}
use eddic.Mtac.Merging.Code.{Places, drop_place, edit_place}
use eddic.Mtac.Merging.Framed.{all_places}
use eddic.Mtac.Merging.Runs.{first_at, next_at, statements_at, index_list, past}

pub past-absent :
    (n : ℕ) (o k : Option ℕ) → ((m : ℕ) → o ≡ some m → (m == n) ≡ false) → past n o k ≡ o
past-absent n none k h = refl
past-absent n (some m) k h = rw (h m refl) refl

not_there :
    (n m : ℕ) (is : List ℕ) → contains is n ≡ false → contains is m ≡ true → (m == n) ≡ false
not_there n m is h k = elim (Bool-cases (m == n)) [
  | inl same ↦ let e = ap (contains is) ((==_iff m n).0 same) in cc
  | inr other ↦ other
]

module _ {D : Type 0} where
  pub statements_at-drop :
      (n i : ℕ) (ps : Places D)
      → (i == n) ≡ false
      → statements_at (drop_place n ps) i ≡ statements_at ps i
  statements_at-drop n i [] h = refl
  statements_at-drop n i ((j, qs) ∷ ps) h = ground (arith, statements_at-drop n i ps h, h)

  pub statements_at-edit :
      (g : List (Quadruple D) → List (Quadruple D)) (p i : ℕ) (ps : Places D)
      → (i == p) ≡ false
      → statements_at (edit_place g p ps) i ≡ statements_at ps i
  statements_at-edit g p i [] h = refl
  statements_at-edit g p i ((j, qs) ∷ ps) h = ground (arith, statements_at-edit g p i ps h, h)

  pub statements_at-edit_self :
      (g : List (Quadruple D) → List (Quadruple D)) (p : ℕ) (ps : Places D)
      → contains (index_list ps) p ≡ true
      → statements_at (edit_place g p ps) p ≡ g (statements_at ps p)
  statements_at-edit_self g p [] h = cc
  statements_at-edit_self g p ((j, qs) ∷ ps) h = ground (arith, statements_at-edit_self g p ps, h)

  pub next_at-edit :
      (g : List (Quadruple D) → List (Quadruple D)) (p i : ℕ) (ps : Places D)
      → next_at (edit_place g p ps) i ≡ next_at ps i
  next_at-edit g p i [] = refl
  next_at-edit g p i ((j, qs) ∷ []) = refl
  next_at-edit g p i ((j, qs) ∷ (k, rs) ∷ ps) = ground (arith, next_at-edit g p i ((k, rs) ∷ ps))

  pub index_list-edit :
      (g : List (Quadruple D) → List (Quadruple D)) (p : ℕ) (ps : Places D)
      → index_list (edit_place g p ps) ≡ index_list ps
  index_list-edit g p [] = refl
  index_list-edit g p ((j, qs) ∷ ps) = ap (λ l. j ∷ l) (index_list-edit g p ps)

  drop_place-absent :
      (n : ℕ) (ps : Places D) → contains (index_list ps) n ≡ false → drop_place n ps ≡ ps
  drop_place-absent n [] h = refl
  drop_place-absent n ((j, qs) ∷ ps) h = ground (arith, drop_place-absent n ps, h)

  next_at-contains :
      (i n : ℕ) (ps : Places D) → next_at ps i ≡ some n → contains (index_list ps) n ≡ true
  next_at-contains i n [] h = cc
  next_at-contains i n ((j, qs) ∷ []) h = ground (arith, h)
  next_at-contains i n ((j, qs) ∷ (k, rs) ∷ ps) h =
      ground (arith, next_at-contains i n ((k, rs) ∷ ps), h)

  pub next_at-drop :
      (n i : ℕ) (ps : Places D)
      → IsDistinct (index_list ps)
      → (i == n) ≡ false
      → next_at (drop_place n ps) i ≡ past n (next_at ps i) (next_at ps n)
  next_at-drop n i [] d h = refl
  next_at-drop n i ((j, qs) ∷ []) d h = ground arith
  next_at-drop n i ((j, qs) ∷ (k, rs) ∷ ps) d h = elim (Bool-cases (j == n)) [
    | inl gone ↦
        let e : j ≡ n = (==_iff j n).0 gone in
        let absent : contains (k ∷ index_list ps) n ≡ false =
          sym (ap (contains (k ∷ index_list ps)) e) ∙ d.0 in
        let apart : (j == i) ≡ false = ground (arith, e, h) in
        let same : drop_place n ((k, rs) ∷ ps) ≡ (k, rs) ∷ ps =
          drop_place-absent n ((k, rs) ∷ ps) absent in
        rw (gone, apart)
          (ap (λ l. next_at l i) same
            ∙ sym (
                past-absent n (next_at ((k, rs) ∷ ps) i) (some k) (λ m e'.
                  not_there n m (k ∷ index_list ps) absent
                    (next_at-contains i m ((k, rs) ∷ ps) e'))))
    | inr stays ↦ elim (Bool-cases (j == i)) [
      | inl here ↦ elim (Bool-cases (k == n)) [
        | inl next ↦
            let e : k ≡ n = (==_iff k n).0 next in
            let absent : contains (index_list ps) n ≡ false =
              sym (ap (contains (index_list ps)) e) ∙ d.1.0 in
            rw (stays, next, here) (rw next (ap first_at (drop_place-absent n ps absent)))
        | inr other ↦ rw (stays, other, here) (rw other refl)
      ]
      | inr there ↦ rw (stays, there) (next_at-drop n i ((k, rs) ∷ ps) d.1 h)
    ]
  ]

  pub avoids-at :
      (t : List (Quadruple D) → Bool) (i : ℕ) (ps : Places D)
      → t [] ≡ true
      → all_places t ps ≡ true
      → t (statements_at ps i) ≡ true
  avoids-at t i [] e h = e
  avoids-at t i ((j, qs) ∷ ps) e h = ground (arith, avoids-at t i ps e, h)
