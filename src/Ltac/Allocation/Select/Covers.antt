-- ===== src/Ltac/Allocation/Select/Covers.antt =====
-- Every register that was queued has a colour in the end.
use eddic.Prelude.{
  ℕ, ◌≡◌, refl, sym, ap, ◌∙◌, arith, true, none, some, List, [], ◌∷◌, ◌==◌, retain, contains,
  contains-retain, Bool-cases, >>=-eq-some, inl, inr, ◌⊎◌,
}
use mathlib.Core.Bool.{not}
use mathlib.Core.Option.{some-injective}
use eddic.Ltac.Allocation.Graph.{Graph, neighbors}
use eddic.Ltac.Allocation.Simplify.{is_bound, binding_of}
use eddic.Ltac.Allocation.Select.{
  Allocation, allocate, free_color, allocate_bound, select_loop, select,
}
use eddic.Ltac.Allocation.Select.Counted.{split_member}

abbrev pub HasColor : Allocation → ℕ → Type 0
HasColor a n = (c : ℕ) × (a n ≡ some c)

allocate-HasColor : (a : Allocation) (r c n : ℕ) → HasColor a n → HasColor (allocate r c a) n
allocate-HasColor a r c n (d, e) = elim (Bool-cases (n == r)) [
  | inl same ↦ (c, rw same refl)
  | inr other ↦ (d, rw other e)
]

allocate-HasColor_self : (a : Allocation) (r c n : ℕ) → n ≡ r → HasColor (allocate r c a) n
allocate-HasColor_self a r c n same = (c, ground arith)

allocate_bound-HasColor :
    (order : List ℕ) (g : Graph) (a : Allocation) (n : ℕ)
    → HasColor a n
    → HasColor (allocate_bound g order a) n
unfolding allocate_bound
allocate_bound-HasColor [] g a n h = h
allocate_bound-HasColor (r ∷ rest) g a n h = elim (Bool-cases (is_bound g r)) [
  | inl bound ↦ rw bound (
      allocate_bound-HasColor rest g (allocate r (binding_of g r) a) n
        (allocate-HasColor a r (binding_of g r) n h))
  | inr free ↦ rw free (allocate_bound-HasColor rest g a n h)
]

allocate_bound-covers :
    (order : List ℕ) (g : Graph) (a : Allocation) (n : ℕ)
    → contains order n ≡ true
    → is_bound g n ≡ true
    → HasColor (allocate_bound g order a) n
unfolding allocate_bound
allocate_bound-covers [] g a n m b = cc
allocate_bound-covers (r ∷ rest) g a n m b = elim (split_member n r rest m) [
  | inl same ↦
      let bound : is_bound g r ≡ true = sym (ap (is_bound g) same) ∙ b in
      rw bound (
        allocate_bound-HasColor rest g (allocate r (binding_of g r) a) n
          (allocate-HasColor_self a r (binding_of g r) n same))
  | inr later ↦ elim (Bool-cases (is_bound g r)) [
    | inl bound ↦ rw bound (allocate_bound-covers rest g (allocate r (binding_of g r) a) n later b)
    | inr free ↦ rw free (allocate_bound-covers rest g a n later b)
  ]
]

select_loop-covers :
    (order : List ℕ) (g : Graph) (colors : List ℕ) (a b : Allocation) (given done : List ℕ) (n : ℕ)
    → HasColor a n ⊎ (contains order n ≡ true)
    → select_loop g colors order a given ≡ some (b, done)
    → HasColor b n
unfolding select_loop
select_loop-covers [] g colors a b given done n (inl (c, e)) h =
    (c, ap (λ p. p.0 n) (sym (some-injective (a, given) (b, done) h)) ∙ e)
select_loop-covers [] g colors a b given done n (inr m) h = cc
select_loop-covers (r ∷ rest) g colors a b given done n k h =
    let (color, e, later) = >>=-eq-some (free_color a (neighbors g r) colors) _ h in
    select_loop-covers rest g colors (allocate r color a) b (color ∷ given) done n
      (elim k [
        | inl old ↦ inl (allocate-HasColor a r color n old)
        | inr m ↦ elim (split_member n r rest m) [
          | inl same ↦ inl (allocate-HasColor_self a r color n same)
          | inr left ↦ inr left
        ]
      ])
      later

pub select-covers :
    (g : Graph) (colors order : List ℕ) (a : Allocation) (given : List ℕ) (n : ℕ)
    → select g colors order ≡ some (a, given)
    → contains order n ≡ true
    → HasColor a n
unfolding select
select-covers g colors order a given n h m =
    select_loop-covers (retain (λ r. not (is_bound g r)) order) g colors
      (allocate_bound g order (λ r. none)) a [] given n
      (elim (Bool-cases (is_bound g n)) [
        | inl bound ↦ inl (allocate_bound-covers order g (λ r. none) n m bound)
        | inr free ↦
            inr (contains-retain (λ r. not (is_bound g r)) order n ∙ ground (arith, m, free))
      ])
      h
