-- ===== src/Ltac/Allocation/Select/Complete.antt =====
-- select finds a colour for every register of low degree.
use eddic.Prelude.{
  ℕ, ◌≤◌, ◌<◌, ◌≡◌, refl, sym, ap, ◌∙◌, arith, Bool, true, false, ◌||◌, Option, none, some, List,
  [], ◌∷◌, retain, contains, length, length-le-of_contains, IsDistinct, Bool-cases, Option-cases,
  inl, inr,
}
use mathlib.Core.Bool.{not}
use eddic.Ltac.Allocation.Graph.{Graph, neighbors}
use eddic.Ltac.Allocation.Simplify.{is_bound, binding_of, degree}
use eddic.Ltac.Allocation.Simplify.Order.{IsLow}
use eddic.Ltac.Allocation.Select.{
  Allocation, allocate, has_color, is_taken, free_color, allocate_bound, select_loop, select,
}
use eddic.Ltac.Allocation.Select.Counted.{IsSettled, counted, split_member}
use eddic.Ltac.Allocation.Select.Proper.{allocated}

has_color-some : (o : Option ℕ) (c : ℕ) → has_color o c ≡ true → o ≡ some c
has_color-some none c h = cc
has_color-some (some d) c h = ground arith

or_nil : (b : Bool) → (b || false) ≡ true → b ≡ true
or_nil b h = ground arith

-- a neighbour with the colour, where it is taken
taken_by :
    (a : Allocation) (nodes : List ℕ) (c : ℕ)
    → is_taken a nodes c ≡ true
    → (n : ℕ) × (contains nodes n ≡ true) × (a n ≡ some c)
unfolding is_taken
taken_by a [] c h = cc
taken_by a (x ∷ rest) c h = elim (Bool-cases (has_color (a x) c)) [
  | inl here ↦ (x, ground arith, has_color-some (a x) c here)
  | inr other ↦ let (n, member, e) = taken_by a rest c (rw other at h) in (n, ground arith, e)
]

free_color-none :
    (a : Allocation) (nodes colors : List ℕ)
    → free_color a nodes colors ≡ none
    → (c : ℕ) → contains colors c ≡ true
    → is_taken a nodes c ≡ true
unfolding free_color
free_color-none a nodes [] h c m = cc
free_color-none a nodes (x ∷ rest) h c m = elim (Bool-cases (is_taken a nodes x)) [
  | inl taken ↦ elim (split_member c x rest m) [
    | inl same ↦ ap (is_taken a nodes) same ∙ taken
    | inr later ↦ free_color-none a nodes rest (rw taken at h) c later
  ]
  | inr free ↦ let gone : some x ≡ none = rw free at h in cc
]

-- With more colours than the degree one is left.
free_color-total :
    (g : Graph) (a : Allocation) (order colors : List ℕ) (r k : ℕ)
    → IsSettled g a order
    → IsDistinct colors
    → k ≤ length colors
    → degree g r order < k
    → (c : ℕ) × (free_color a (neighbors g r) colors ≡ some c)
unfolding degree
free_color-total g a order colors r k settled distinct enough low =
    elim (Option-cases (free_color a (neighbors g r) colors)) [
      | inr found ↦ found
      | inl missing ↦
          let used = counted g a order settled (neighbors g r) [] 0 in
          let few = length-le-of_contains colors used.colors distinct (λ c m.
            let taken = free_color-none a (neighbors g r) colors missing c m in
            let (n, member, e) = taken_by a (neighbors g r) c taken in
            or_nil (contains used.colors c) (used.covers n c member e)) in
          absurd (omega (arith, used.few))
    ]

allocate_bound-IsSettled :
    (order : List ℕ) (g : Graph) (a : Allocation) (whole : List ℕ)
    → IsSettled g a whole
    → IsSettled g (allocate_bound g order a) whole
unfolding allocate_bound
allocate_bound-IsSettled [] g a whole h = h
allocate_bound-IsSettled (r ∷ rest) g a whole h = elim (Bool-cases (is_bound g r)) [
  | inl bound ↦ rw bound (
      allocate_bound-IsSettled rest g (allocate r (binding_of g r) a) whole (λ n c e.
        elim (allocated n r (binding_of g r) c a e) [
          | inl (same, color) ↦
              inl (ap (is_bound g) same ∙ bound, sym color ∙ ap (binding_of g) (sym same))
          | inr (_, old) ↦ h n c old
        ]))
  | inr free ↦ rw free (allocate_bound-IsSettled rest g a whole h)
]

pop-IsSettled :
    (g : Graph) (a : Allocation) (r : ℕ) (rest : List ℕ)
    → IsSettled g a (r ∷ rest)
    → IsSettled g a rest
pop-IsSettled g a r rest h n c e = elim (h n c e) [
  | inl bound ↦ inl bound
  | inr (free, out) ↦ inr (free, ground arith)
]

color-IsSettled :
    (g : Graph) (a : Allocation) (r color : ℕ) (rest : List ℕ)
    → contains rest r ≡ false
    → is_bound g r ≡ false
    → IsSettled g a (r ∷ rest)
    → IsSettled g (allocate r color a) rest
color-IsSettled g a r color rest out free h n c e = elim (allocated n r color c a e) [
  | inl (same, _) ↦ inr (ap (is_bound g) same ∙ free, ap (contains rest) same ∙ out)
  | inr (_, old) ↦ pop-IsSettled g a r rest h n c old
]

select_loop-total :
    (order : List ℕ) (g : Graph) (k : ℕ) (colors : List ℕ) (a : Allocation) (given : List ℕ)
    → IsSettled g a order
    → IsLow g k order
    → IsDistinct order
    → IsDistinct colors
    → k ≤ length colors
    → (s : Allocation × List ℕ) × (select_loop g colors
          (retain (λ r. not (is_bound g r)) order)
          a
          given
        ≡ some s)
unfolding select_loop
select_loop-total [] g k colors a given settled low d dc enough = ((a, given), refl)
select_loop-total (r ∷ rest) g k colors a given settled low d dc enough =
    elim (Bool-cases (is_bound g r)) [
      | inl bound ↦ rw bound (
          select_loop-total rest g k colors a given (pop-IsSettled g a r rest settled) low.1 d.1 dc
            enough)
      | inr free ↦
          let degree_low : degree g r rest < k = elim (low.0) [ inl b ↦ cc | inr l ↦ l ] in
          let (color, found) =
            free_color-total g a rest colors r k (pop-IsSettled g a r rest settled) dc enough
              degree_low in
          rw (free, found)
            (select_loop-total rest g k colors (allocate r color a) (color ∷ given)
              (color-IsSettled g a r color rest d.0 free settled) low.1 d.1 dc enough)
    ]

-- With as many colours as the degrees were tested against, the assertion of select holds.
pub select_total :
    (g : Graph) (k : ℕ) (colors order : List ℕ)
    → IsLow g k order
    → IsDistinct order
    → IsDistinct colors
    → k ≤ length colors
    → (s : Allocation × List ℕ) × (select g colors order ≡ some s)
unfolding select
select_total g k colors order low d dc enough =
    select_loop-total order g k colors (allocate_bound g order (λ r. none)) []
      (allocate_bound-IsSettled order g (λ r. none) order (λ n c e. cc)) low d dc enough
