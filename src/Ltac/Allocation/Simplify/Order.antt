-- ===== src/Ltac/Allocation/Simplify/Order.antt =====
-- What simplify leaves: every node once, and each that is queued of low degree when it is.
use eddic.Prelude.{
  ℕ, zero, suc, ◌+◌, ◌≤◌, ◌<◌, ◌≡◌, refl, ap, ◌∙◌, arith, Bool, true, false, ◌&&◌, ◌||◌, some, List,
  [], ◌∷◌, ◌==◌, ltb, leb, length, contains, contains-retain, IsDistinct, Bool-cases, ==_iff, inl,
  inr, ◌⊎◌,
}
use mathlib.Core.Bool.{not}
use mathlib.Core.Option.{some-injective}
use eddic.Ltac.Allocation.Graph.{Graph, remove_node}
use eddic.Ltac.Allocation.Simplify.{
  Doubles, is_bound, degree, numbers, queue_bound, erase_node, find_candidate, spill_heuristic,
  cheapest,
}
use eddic.Ltac.Allocation.Simplify.Kept.{Alike, remove_node-Alike, is_bound-Alike}

-- Each node of the list, its back first, is bound or of low degree against those pushed before.
abbrev pub IsLow : Graph → ℕ → List ℕ → Type 0
IsLow g k [] = Unit
IsLow g k (r ∷ rest) = ((is_bound g r ≡ true) ⊎ (degree g r rest < k)) × IsLow g k rest

-- The first loop.
pub record IsQueued (g : Graph) (k : ℕ) (xs order : List ℕ) (h : Graph) (queue : List ℕ)
    : Type 0 where
  pub alike : Alike g h
  pub low : IsLow g k queue
  pub distinct : IsDistinct queue
  pub members : (x : ℕ) → contains queue x ≡ (contains order x || (contains xs x && is_bound g x))

IsQueued-start :
    (g h : Graph) (k : ℕ) (order : List ℕ)
    → Alike g h
    → IsLow g k order
    → IsDistinct order
    → IsQueued g k [] order h order
IsQueued-start g h k order alike low d = record {
  alike = alike;
  low = low;
  distinct = d;
  members = λ x. ground arith;
}

-- a member is not what is no member
differs : (xs : List ℕ) (x r : ℕ) → contains xs x ≡ true → contains xs r ≡ false → (x == r) ≡ false
differs xs x r h k = elim (Bool-cases (x == r)) [
  | inl same ↦ let e : contains xs x ≡ contains xs r = ap (contains xs) ((==_iff x r).0 same) in cc
  | inr other ↦ other
]

bound_at : (g : Graph) (x r : ℕ) → (x == r) ≡ true → is_bound g x ≡ is_bound g r
bound_at g x r h = ap (is_bound g) ((==_iff x r).0 h)

queue_members :
    (x r : ℕ) (in_order in_rest bound_x : Bool)
    → ((x == r) ≡ true → bound_x ≡ true)
    → (((x == r) || in_order) || (in_rest && bound_x))
      ≡ (in_order || (((x == r) || in_rest) && bound_x))
queue_members x r in_order in_rest bound_x h = ground (arith, h)

skip_members :
    (x r : ℕ) (in_order in_rest bound_x : Bool)
    → ((x == r) ≡ true → bound_x ≡ false)
    → (in_order || (in_rest && bound_x)) ≡ (in_order || (((x == r) || in_rest) && bound_x))
skip_members x r in_order in_rest bound_x h = ground (arith, h)

pub queue_bound-IsQueued :
    (xs : List ℕ) (g h : Graph) (k : ℕ) (order : List ℕ)
    → Alike g h
    → IsLow g k order
    → IsDistinct order
    → IsDistinct xs
    → ((x : ℕ) → contains xs x ≡ true → contains order x ≡ false)
    → IsQueued g k xs order (queue_bound xs h order).0 (queue_bound xs h order).1
unfolding queue_bound
queue_bound-IsQueued [] g h k order alike low d dx apart = IsQueued-start g h k order alike low d
queue_bound-IsQueued (r ∷ rest) g h k order alike low d dx apart =
    elim (Bool-cases (is_bound g r)) [
      | inl bound ↦
          let ih =
            queue_bound-IsQueued rest g (remove_node h r) k (r ∷ order)
              (remove_node-Alike g h r alike) (inl bound, low) (apart r (ground arith), d) dx.1
              (λ x m. ground (arith, differs rest x r m dx.0, apart x)) in
          rw (is_bound-Alike g h alike r, bound)
            (record {
              alike = ih.alike;
              low = ih.low;
              distinct = ih.distinct;
              members = λ x.
                  ih.members x
                  ∙ queue_members x r (contains order x) (contains rest x) (is_bound g x)
                      (λ e. bound_at g x r e ∙ bound);
            })
      | inr free ↦
          let ih =
            queue_bound-IsQueued rest g h k order alike low d dx.1
              (λ x m. apart x (ground arith)) in
          rw (is_bound-Alike g h alike r, free)
            (record {
              alike = ih.alike;
              low = ih.low;
              distinct = ih.distinct;
              members = λ x.
                  ih.members x
                  ∙ skip_members x r (contains order x) (contains rest x) (is_bound g x)
                      (λ e. bound_at g x r e ∙ free);
            })
    ]

-- numbers: all of them, once
pub contains-numbers :
    (rounds r x : ℕ) → contains (numbers rounds r) x ≡ (leb r x && ltb x (r + rounds))
unfolding numbers
contains-numbers zero r x = ground arith
contains-numbers (suc rounds) r x = ground (arith, contains-numbers rounds (r + 1) x)

pub numbers-IsDistinct : (rounds r : ℕ) → IsDistinct (numbers rounds r)
unfolding numbers
numbers-IsDistinct zero r = tt
numbers-IsDistinct (suc rounds) r =
    (contains-numbers rounds (r + 1) r ∙ ground arith, numbers-IsDistinct rounds (r + 1))

pub contains-erase_node :
    (a : ℕ) (xs : List ℕ) (x : ℕ) → contains (erase_node a xs) x ≡ (not (x == a) && contains xs x)
unfolding erase_node
contains-erase_node a xs x = contains-retain (λ x. not (x == a)) xs x ∙ ground arith

length-erase_node-le : (a : ℕ) (xs : List ℕ) → length (erase_node a xs) ≤ length xs
unfolding erase_node
length-erase_node-le a [] = omega arith
length-erase_node-le a (x ∷ xs) = ground (arith, length-erase_node-le a xs)

pub length-erase_node :
    (a : ℕ) (xs : List ℕ) → contains xs a ≡ true → length (erase_node a xs) < length xs
unfolding erase_node
length-erase_node a [] h = cc
length-erase_node a (x ∷ xs) h = ground (arith, length-erase_node-le a xs, length-erase_node a xs)

pub find_candidate-some :
    (k : ℕ) (g : Graph) (order xs : List ℕ) (c : ℕ)
    → find_candidate k g order xs ≡ some c
    → (contains xs c ≡ true) × (degree g c order < k)
unfolding find_candidate
find_candidate-some k g order [] c h = cc
find_candidate-some k g order (x ∷ rest) c h = elim (Bool-cases (ltb (degree g x order) k)) [
  | inl low ↦
      let e : x ≡ c = some-injective x c (rw low at h) in rw (← e) (ground arith, ground arith)
  | inr high ↦
      let (member, low) = find_candidate-some k g order rest c (rw high at h) in (ground arith, low)
]

first_member : (x c : ℕ) (b : Bool) → x ≡ c → ((x == c) || b) ≡ true
first_member x c b h = ground arith

rest_member : (x c : ℕ) (b : Bool) → b ≡ true → ((x == c) || b) ≡ true
rest_member x c b h = ground arith

pub contains-cheapest :
    {D : Type 0} (d : Doubles D) (g : Graph) (order xs : List ℕ) (node : ℕ) (cost : D)
    → (cheapest d g order xs node cost ≡ node)
      ⊎ (contains xs (cheapest d g order xs node cost) ≡ true)
unfolding cheapest
contains-cheapest d g order [] node cost = inl refl
contains-cheapest d g order (c ∷ rest) node cost =
    elim (Bool-cases (not (is_bound g c) && d.less (spill_heuristic d g c order) cost)) [
      | inl better ↦ rw better (
          inr (elim (contains-cheapest d g order rest c (spill_heuristic d g c order)) [
            | inl e ↦ first_member _ c _ e
            | inr e ↦ rest_member _ c _ e
          ]))
      | inr same ↦ rw same (elim (contains-cheapest d g order rest node cost) [
        | inl e ↦ inl e
        | inr e ↦ inr (rest_member _ c _ e)
      ])
    ]
