-- ===== src/Ltac/Allocation/Select/Proper.antt =====
-- The colours that select gives are a colouring of the graph.
use eddic.Prelude.{
  ℕ, ◌≡◌, ◌≢◌, refl, sym, ap, ◌∙◌, arith, Bool, true, false, ◌||◌, Option, none, some, List, [],
  ◌∷◌, ◌==◌, retain, contains, Bool-cases, >>=-eq-some, ==_iff, inl, inr, ◌⊎◌,
}
use mathlib.Core.Bool.{not}
use mathlib.Core.Path.{subst}
use mathlib.Core.Option.{some-injective}
use eddic.Ltac.Allocation.Graph.{Graph, neighbors}
use eddic.Ltac.Allocation.Simplify.{is_bound, binding_of}
use eddic.Ltac.Allocation.Select.{
  Allocation, allocate, has_color, is_taken, free_color, allocate_bound, select_loop, select,
}

-- Neighbours are neighbours of each other, and of no node itself.
pub record IsInterference (g : Graph) : Type 0 where
  pub symmetric : (r n : ℕ) → contains (neighbors g r) n ≡ true → contains (neighbors g n) r ≡ true
  pub irreflexive : (r : ℕ) → contains (neighbors g r) r ≡ false

-- No node that is free to choose has the colour of a neighbour.
abbrev pub IsProper : Graph → Allocation → Type 0
IsProper g allocation =
    (r n c : ℕ)
    → is_bound g r ≡ false
    → contains (neighbors g r) n ≡ true
    → allocation r ≡ some c
    → allocation n ≢ some c

or-false : (a b : Bool) → (a || b) ≡ false → (a ≡ false) × (b ≡ false)
or-false true b h = cc
or-false false b h = (refl, h)

colored : (o : Option ℕ) (c : ℕ) → has_color o c ≡ false → o ≢ some c
colored none c h e = cc
colored (some d) c h e = let same : d ≡ c = some-injective d c e in ground arith

pub is_taken_lem :
    (a : Allocation) (nodes : List ℕ) (n c : ℕ)
    → is_taken a nodes c ≡ false
    → contains nodes n ≡ true
    → a n ≢ some c
unfolding is_taken
is_taken_lem a [] n c h k e = cc
is_taken_lem a (x ∷ rest) n c h k e =
    let (first, others) = or-false (has_color (a x) c) (is_taken a rest c) h in
    elim (Bool-cases (n == x)) [
      | inl same ↦
          let color : a x ≡ some c = ap a (sym ((==_iff n x).0 same)) ∙ e in
          colored (a x) c first color
      | inr other ↦ is_taken_lem a rest n c others (rw other at k) e
    ]

pub free_color-some :
    (a : Allocation) (nodes colors : List ℕ) (c : ℕ)
    → free_color a nodes colors ≡ some c
    → is_taken a nodes c ≡ false
unfolding free_color
free_color-some a nodes [] c h = cc
free_color-some a nodes (color ∷ rest) c h = elim (Bool-cases (is_taken a nodes color)) [
  | inl taken ↦ free_color-some a nodes rest c (rw taken at h)
  | inr free ↦ let same : color ≡ c = some-injective color c (rw free at h) in rw (← same) free
]

-- What the first loop allocates is bound, or was allocated before.
allocate_bound-some :
    (g : Graph) (order : List ℕ) (a : Allocation) (r c : ℕ)
    → allocate_bound g order a r ≡ some c
    → (is_bound g r ≡ true) ⊎ (a r ≡ some c)
unfolding allocate_bound
allocate_bound-some g [] a r c h = inr h
allocate_bound-some g (x ∷ rest) a r c h = elim (Bool-cases (is_bound g x)) [
  | inl bound ↦
      elim (allocate_bound-some g rest (allocate x (binding_of g x) a) r c (rw bound at h)) [
        | inl e ↦ inl e
        | inr e ↦ elim (Bool-cases (r == x)) [
          | inl same ↦ inl (ap (is_bound g) ((==_iff r x).0 same) ∙ bound)
          | inr other ↦ inr (rw other at e)
        ]
      ]
  | inr free ↦ allocate_bound-some g rest a r c (rw free at h)
]

pub allocated :
    (x r color c : ℕ) (a : Allocation)
    → allocate r color a x ≡ some c
    → ((x ≡ r) × (color ≡ c)) ⊎ (((x == r) ≡ false) × (a x ≡ some c))
allocated x r color c a h = elim (Bool-cases (x == r)) [
  | inl same ↦ inl ((==_iff x r).0 same, some-injective color c (rw same at h))
  | inr other ↦ inr (other, rw other at h)
]

module _ (g : Graph) (ok : IsInterference g) where
  moved :
      (r r' n n' : ℕ)
      → r ≡ r'
      → n ≡ n'
      → contains (neighbors g r) n ≡ true
      → contains (neighbors g r') n' ≡ true
  moved r r' n n' hr hn h =
      sym (ap (λ r. contains (neighbors g r) n) hr ∙ ap (contains (neighbors g r')) hn) ∙ h

  allocate-IsProper :
      (r color : ℕ) (a : Allocation)
      → is_taken a (neighbors g r) color ≡ false
      → IsProper g a
      → IsProper g (allocate r color a)
  allocate-IsProper r color a free proper x n c hb edge hx hn = elim (allocated x r color c a hx) [
    | inl (xr, e) ↦ elim (allocated n r color c a hn) [
      | inl (nr, _) ↦
          let own = ok.irreflexive r in
          let loop : contains (neighbors g r) r ≡ true = moved x r n r xr nr edge in cc
      | inr (_, old) ↦
          is_taken_lem a (neighbors g r) n color free (moved x r n n xr refl edge)
            (old ∙ ap some (sym e))
    ]
    | inr (_, old) ↦ elim (allocated n r color c a hn) [
      | inl (nr, e) ↦
          is_taken_lem a (neighbors g r) x color free
            (ok.symmetric x r (moved x x n r refl nr edge)) (old ∙ ap some (sym e))
      | inr (_, old') ↦ proper x n c hb edge old old'
    ]
  ]

  select_loop-IsProper :
      (colors order : List ℕ) (a b : Allocation) (given done : List ℕ)
      → IsProper g a
      → select_loop g colors order a given ≡ some (b, done)
      → IsProper g b
  unfolding select_loop
  select_loop-IsProper colors [] a b given done proper h =
      subst (IsProper g) (ap (λ p. p.0) (some-injective (a, given) (b, done) h)) proper
  select_loop-IsProper colors (r ∷ rest) a b given done proper h =
      let (color, e, k) = >>=-eq-some (free_color a (neighbors g r) colors) _ h in
      select_loop-IsProper colors rest (allocate r color a) b (color ∷ given) done
        (allocate-IsProper r color a (free_color-some a (neighbors g r) colors color e) proper) k

  -- On a graph whose edges go both ways and join no node to itself, a register that is not bound gets
  -- a colour that none of its neighbours has, bound ones included.
  pub select-IsProper :
      (colors order : List ℕ) (a : Allocation) (given : List ℕ)
      → select g colors order ≡ some (a, given)
      → IsProper g a
  unfolding select
  select-IsProper colors order a given h =
      select_loop-IsProper colors (retain (λ r. not (is_bound g r)) order)
        (allocate_bound g order (λ r. none)) a [] given start h
    where
      start : IsProper g (allocate_bound g order (λ r. none))
      start r n c hb edge hr hn = elim (allocate_bound-some g order (λ r. none) r c hr) [
        | inl bound ↦ cc
        | inr e ↦ cc
      ]
