-- ===== src/Ltac/Allocation/Simplify/Loop.antt =====
-- The loop of simplify ends with no node left, and puts every node in one of its two lists.
use eddic.Prelude.{
  ℕ, zero, suc, ◌≤◌, ◌<◌, ◌≡◌, refl, ap, ◌∙◌, arith, true, false, ◌||◌, Option, none, some, List,
  [], ◌∷◌, length, contains, retain, contains-retain, IsDistinct, inl, inr,
}
use mathlib.Core.Bool.{not}
use eddic.Ltac.Allocation.Graph.{Graph, size, remove_node}
use eddic.Ltac.Allocation.Simplify.{
  Doubles, is_bound, degree, numbers, queue_bound, erase_node, find_candidate, spill_heuristic,
  cheapest, simplify_loop, simplify, found_or, is_none, push_if,
}
use eddic.Ltac.Allocation.Simplify.Kept.{Alike, Alike-refl, remove_node-Alike, degree-Alike}
use eddic.Ltac.Allocation.Simplify.Order.{
  IsLow, IsQueued, queue_bound-IsQueued, contains-numbers, numbers-IsDistinct, contains-erase_node,
  length-erase_node, find_candidate-some, contains-cheapest,
}

-- The graph, `spilled`, `order` and `n`.
pub record IsSplit (g : Graph) (k : ℕ) (s : Graph × List ℕ × List ℕ × List ℕ) : Type 0 where
  pub alike : Alike g s.0
  pub low : IsLow g k s.2
  pub distinct : IsDistinct s.2
  pub apart : (x : ℕ) → contains s.3 x ≡ true → contains s.2 x ≡ false
  pub every : (x : ℕ) → x < size g → (contains s.2 x || (contains s.3 x || contains s.1 x)) ≡ true

push-IsSplit :
    (g h : Graph) (k node : ℕ) (spilled order n : List ℕ)
    → IsSplit g k (h, spilled, order, n)
    → contains n node ≡ true
    → degree h node order < k
    → IsSplit g k (remove_node h node, spilled, node ∷ order, erase_node node n)
push-IsSplit g h k node spilled order n s member low = record {
  alike = remove_node-Alike g h node s.alike;
  low = (inr (rw (← degree-Alike g h s.alike node order) low), s.low);
  distinct = (s.apart node member, s.distinct);
  apart = λ x m. ground (arith, contains-erase_node node n x, s.apart x);
  every = λ x l. ground (arith, contains-erase_node node n x, s.every x l);
}

spill-IsSplit :
    (g h : Graph) (k node : ℕ) (spilled order n : List ℕ)
    → IsSplit g k (h, spilled, order, n)
    → IsSplit g k (remove_node h node, node ∷ spilled, order, erase_node node n)
spill-IsSplit g h k node spilled order n s = record {
  alike = remove_node-Alike g h node s.alike;
  low = s.low;
  distinct = s.distinct;
  apart = λ x m. s.apart x (ground (arith, contains-erase_node node n x));
  every = λ x l. ground (arith, contains-erase_node node n x, s.every x l);
}

round-IsSplit :
    (o : Option ℕ) (g h : Graph) (k least : ℕ) (spilled order n : List ℕ)
    → find_candidate k h order n ≡ o
    → contains n least ≡ true
    → IsSplit g k (h, spilled, order, n)
    → IsSplit g k (
      remove_node h (found_or o least),
      push_if (is_none o) (found_or o least) spilled,
      push_if (not (is_none o)) (found_or o least) order,
      erase_node (found_or o least) n,
    )
round-IsSplit none g h k least spilled order n e m s = spill-IsSplit g h k least spilled order n s
round-IsSplit (some c) g h k least spilled order n e m s =
    let (member, low) = find_candidate-some k h order n c e in
    push-IsSplit g h k c spilled order n s member low

found_member :
    (o : Option ℕ) (k : ℕ) (h : Graph) (least : ℕ) (order n : List ℕ)
    → find_candidate k h order n ≡ o
    → contains n least ≡ true
    → contains n (found_or o least) ≡ true
found_member none k h least order n e m = m
found_member (some c) k h least order n e m = (find_candidate-some k h order n c e).0

module _ {D : Type 0} (d : Doubles D) where
  least_member :
      (h : Graph) (order rest : List ℕ) (first : ℕ)
      → contains
          (first ∷ rest)
          (cheapest d h order (first ∷ rest) first (spill_heuristic d h first order))
        ≡ true
  least_member h order rest first =
      elim (contains-cheapest d h order (first ∷ rest) first (spill_heuristic d h first order)) [
        | inl e ↦ ap (contains (first ∷ rest)) e ∙ ground arith
        | inr member ↦ member
      ]

  simplify_loop-IsSplit :
      (fuel k : ℕ) (g h : Graph) (spilled order n : List ℕ)
      → length n ≤ fuel
      → IsSplit g k (h, spilled, order, n)
      → IsSplit g k (simplify_loop d fuel k h spilled order n)
        × ((simplify_loop d fuel k h spilled order n).3 ≡ [])
  unfolding simplify_loop
  simplify_loop-IsSplit zero k g h spilled order [] l s = (s, refl)
  simplify_loop-IsSplit zero k g h spilled order (x ∷ n) l s = absurd (omega arith)
  simplify_loop-IsSplit (suc fuel) k g h spilled order [] l s = (s, refl)
  simplify_loop-IsSplit (suc fuel) k g h spilled order (first ∷ rest) l s =
      let n = first ∷ rest in
      let o = find_candidate k h order n in
      let least = cheapest d h order n first (spill_heuristic d h first order) in
      let member = least_member h order rest first in
      let node = found_or o least in
      simplify_loop-IsSplit fuel k g (remove_node h node) (push_if (is_none o) node spilled)
        (push_if (not (is_none o)) node order) (erase_node node n)
        (omega (arith, length-erase_node node n (found_member o k h least order n refl member)))
        (round-IsSplit o g h k least spilled order n refl member s)

  start-IsSplit :
      (g h : Graph) (k : ℕ) (order : List ℕ)
      → IsQueued g k (numbers (size g) 0) [] h order
      → IsSplit g k (h, [], order, retain (λ r. not (is_bound g r)) (numbers (size g) 0))
  start-IsSplit g h k order q =
      let free = contains-retain (λ r. not (is_bound g r)) (numbers (size g) 0) in
      record {
        alike = q.alike;
        low = q.low;
        distinct = q.distinct;
        apart = λ x m. ground (arith, free x, q.members x);
        every = λ x l. ground (arith, free x, q.members x, contains-numbers (size g) 0 x);
      }

  pub simplify-IsSplit :
      (g : Graph) (k : ℕ) → IsSplit g k (simplify d g k) × ((simplify d g k).3 ≡ [])
  unfolding simplify
  simplify-IsSplit g k =
      let nodes = numbers (size g) 0 in
      let q =
        queue_bound-IsQueued nodes g g k [] (Alike-refl g) tt tt (numbers-IsDistinct (size g) 0)
          (λ x m. refl) in
      simplify_loop-IsSplit (length (retain (λ r. not (is_bound g r)) nodes)) k g
        (queue_bound nodes g []).0 [] (queue_bound nodes g []).1
        (retain (λ r. not (is_bound g r)) nodes) (omega arith)
        (start-IsSplit g (queue_bound nodes g []).0 k (queue_bound nodes g []).1 q)

  -- The loop of simplify ends: `n` is empty. Every node of the graph is in `order` or in `spilled`, no
  -- node is in `order` twice, and each that is not bound was pushed there when its degree was below `k`.
  pub simplify_lem :
      (g : Graph) (k x : ℕ)
      → x < size g
      → ((simplify d g k).3 ≡ [])
        × ((contains (simplify d g k).2 x || contains (simplify d g k).1 x) ≡ true)
        × IsDistinct (simplify d g k).2
        × IsLow g k (simplify d g k).2
  simplify_lem g k x l =
      let (s, over) = simplify-IsSplit g k in
      (over, ground (arith, s.every x l, ap (λ xs. contains xs x) over), s.distinct, s.low)
