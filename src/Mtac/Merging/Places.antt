-- ===== src/Mtac/Merging/Places.antt =====
-- src/mtac/merge_basic_blocks.cpp: the places of the iterator in the list of blocks.
use eddic.Prelude.{
  ℕ, suc, ◌≤◌, ◌≡◌, refl, sym, ap, ◌∙◌, arith, true, false, Option, none, some, List, [], ◌∷◌, ◌==◌,
  contains, length, if◌then◌else◌, Bool-cases, Option-cases, inl, inr, ==_iff, IsDistinct,
}
use eddic.Mtac.Function.{Block, indexes, next_of, prev_from, prev_of}
use eddic.Mtac.Function.Edges.{has}
use eddic.Mtac.Function.Linked.{next_of-has, next_of_self}
use eddic.Mtac.Function.Merge.{points_to}
use eddic.Mtac.Function.Valid.{retain-absent}
use eddic.Mtac.DeadBlocks.Framed.{without}

-- how many blocks there are from a block to the end
abbrev pub rest_from : List ℕ → ℕ → ℕ
rest_from [] i = 0
rest_from (x ∷ xs) i = if x == i then suc (length xs) else rest_from xs i

pub rest_from-le : (is : List ℕ) (i : ℕ) → rest_from is i ≤ length is
rest_from-le [] i = omega arith
rest_from-le (x ∷ xs) i = ground (arith, rest_from-le xs i)

module _ {D : Type 0} where
  pub apart :
      (b : Block D) (bs : List (Block D)) (j : ℕ)
      → IsDistinct (indexes (b ∷ bs))
      → has bs j ≡ true
      → (b.index == j) ≡ false
  apart b bs j d h = elim (Bool-cases (b.index == j)) [
    | inl same ↦ let e = ap (contains (indexes bs)) ((==_iff b.index j).0 same) in let k = d.0 in cc
    | inr other ↦ other
  ]

  pub rest_from-next_of :
      (i j : ℕ) (bs : List (Block D))
      → IsDistinct (indexes bs)
      → next_of bs i ≡ some j
      → rest_from (indexes bs) i ≡ suc (rest_from (indexes bs) j)
  unfolding next_of
  rest_from-next_of i j [] d h = cc
  rest_from-next_of i j (b ∷ []) d h = ground (arith, h)
  rest_from-next_of i j (b ∷ c ∷ bs) d h = elim (Bool-cases (b.index == i)) [
    | inl here ↦
        let e : c.index ≡ j = (let k = rw here at h in cc) in
        let n = apart b (c ∷ bs) j d (ground arith) in ground (arith, here, e, n)
    | inr there ↦
        let k = rw there at h in
        let n = apart b (c ∷ bs) j d (next_of-has (c ∷ bs) i j k) in
        rw (there, n) (rest_from-next_of i j (c ∷ bs) d.1 k)
  ]

  prev_from-next_of :
      (b : Block D) (i j : ℕ) (bs : List (Block D))
      → IsDistinct (indexes (b ∷ bs))
      → prev_from (some b.index) bs i ≡ some j
      → next_of (b ∷ bs) j ≡ some i
  unfolding next_of prev_from
  prev_from-next_of b i j [] d h = cc
  prev_from-next_of b i j (c ∷ bs) d h = elim (Bool-cases (c.index == i)) [
    | inl here ↦ let e : b.index ≡ j = (let k = rw here at h in cc) in ground (arith, here, e)
    | inr there ↦
        let k = prev_from-next_of c i j bs d.1 (rw there at h) in
        let n = apart b (c ∷ bs) j d (next_of_self (c ∷ bs) j i k) in rw n k
  ]

  pub prev_of-next_of :
      (i j : ℕ) (bs : List (Block D))
      → IsDistinct (indexes bs)
      → prev_of bs i ≡ some j
      → next_of bs j ≡ some i
  unfolding prev_from
  prev_of-next_of i j [] d h = cc
  prev_of-next_of i j (b ∷ bs) d h = elim (Bool-cases (b.index == i)) [
    | inl here ↦ let k = rw here at h in cc
    | inr there ↦ prev_from-next_of b i j bs d (rw there at h)
  ]

  next_of-prev_from :
      (o : Option ℕ) (p n : ℕ) (bs : List (Block D))
      → IsDistinct (indexes bs)
      → next_of bs p ≡ some n
      → prev_from o bs n ≡ some p
  unfolding next_of prev_from
  next_of-prev_from o p n [] d h = cc
  next_of-prev_from o p n (b ∷ []) d h = ground (arith, h)
  next_of-prev_from o p n (b ∷ c ∷ bs) d h = elim (Bool-cases (b.index == p)) [
    | inl here ↦
        let e : c.index ≡ n = (let k = rw here at h in cc) in
        let m = apart b (c ∷ bs) n d (ground arith) in
        let l : (c.index == n) ≡ true = ground arith in
        let r : b.index ≡ p = (==_iff b.index p).0 here in rw (m, l) (ap some r)
    | inr there ↦
        let k = rw there at h in
        let m = apart b (c ∷ bs) n d (next_of-has (c ∷ bs) p n k) in
        rw m (next_of-prev_from (some b.index) p n (c ∷ bs) d.1 k)
  ]

  pub next_of-prev_of :
      (p n : ℕ) (bs : List (Block D))
      → IsDistinct (indexes bs)
      → next_of bs p ≡ some n
      → prev_of bs n ≡ some p
  next_of-prev_of p n bs d h = next_of-prev_from none p n bs d h

  -- The block behind `n` is not the one before it.
  pub next_of-apart :
      (p n : ℕ) (bs : List (Block D))
      → IsDistinct (indexes bs)
      → next_of bs p ≡ some n
      → points_to (next_of bs n) p ≡ false
  next_of-apart p n bs d h = elim (Option-cases (next_of bs n)) [
    | inl e ↦ rw e refl
    | inr (m, e) ↦ rw e (elim (Bool-cases (m == p)) [
      | inl same ↦
          let k = ap (λ x. rest_from (indexes bs) x) ((==_iff m p).0 same) in
          absurd (omega (arith, rest_from-next_of p n bs d h, rest_from-next_of n m bs d e, k))
      | inr other ↦ other
    ])
  ]

  pub rest_from-without :
      (i n : ℕ) (bs : List (Block D))
      → IsDistinct (indexes bs)
      → next_of bs i ≡ some n
      → rest_from (indexes bs) i ≡ suc (rest_from (without n (indexes bs)) i)
  unfolding next_of
  rest_from-without i n [] d h = cc
  rest_from-without i n (b ∷ []) d h = ground (arith, h)
  rest_from-without i n (b ∷ c ∷ bs) d h = elim (Bool-cases (b.index == i)) [
    | inl here ↦
        let e : c.index ≡ n = (let k = rw here at h in cc) in
        let m = apart b (c ∷ bs) n d (ground arith) in
        let l : (c.index == n) ≡ true = ground arith in
        let a : contains (indexes bs) n ≡ false = sym (ap (contains (indexes bs)) e) ∙ d.1.0 in
        rw (here, m, l) (rw (retain-absent n (indexes bs) a, here) refl)
    | inr there ↦
        let k = rw there at h in
        let m = apart b (c ∷ bs) n d (next_of-has (c ∷ bs) i n k) in
        rw (there, m) (rw there (rest_from-without i n (c ∷ bs) d.1 k))
  ]
