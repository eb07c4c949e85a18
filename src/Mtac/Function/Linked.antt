-- ===== src/Mtac/Function/Linked.antt =====
-- src/mtac/ControlFlowGraph.cpp and src/mtac/Function.cpp: the successors and the predecessors stay the
-- two ends of the same edges.
use eddic.Prelude.{
  ℕ, ◌+◌, ◌≢◌, ◌≡◌, refl, sym, ap, ◌∙◌, arith, true, ◌&&◌, ◌||◌, Option, none, some, List, [], ◌∷◌,
  ◌==◌, if◌then◌else◌, Bool-cases, inl, inr, ◌>>=◌, >>=-eq-some, IsDistinct,
}
use eddic.Word.{minus_one}
use eddic.Mtac.Operator
use eddic.Mtac.Operator.{is_if, is_if_false, same}
use eddic.Mtac.Quadruple.{Quadruple}
use eddic.Mtac.Function.{
  Block, indexes, find, first_index, next_of, make_edge, make_edge_to, back, edges_of_last,
  edges_of, build_edges, minus_two,
}
use eddic.Mtac.Function.Edges.{
  has, out, into, successors_of, predecessors_of, make_edge-IsAdded, make_edge-eq-some,
}

module _ {D : Type 0} where
  -- Both ends of every edge hold it, as often.
  abbrev pub IsLinked : List (Block D) → Type 0
  IsLinked bs = (a b : ℕ) → out bs a b ≡ into bs a b

  pub make_edge-IsLinked :
      (f t : ℕ) (bs cs : List (Block D))
      → IsLinked bs
      → make_edge f t bs ≡ some cs
      → IsLinked cs × (indexes cs ≡ indexes bs)
  make_edge-IsLinked f t bs cs l h =
      let there = make_edge-eq-some f t bs cs h in
      let (ds, done, r) = make_edge-IsAdded f t bs there.0 there.1 in
      let e : cs ≡ ds = cc in
      rw e (
        (λ a b.
            r.more_out a b
            ∙ ap (λ n. n + (if f == a && t == b then 1 else 0)) (l a b)
            ∙ sym (r.more_into a b)),
        r.same_indexes,
      )

  make_edge_to-IsLinked :
      (f : ℕ) (o : Option ℕ) (bs cs : List (Block D))
      → IsLinked bs
      → make_edge_to f o bs ≡ some cs
      → IsLinked cs × (indexes cs ≡ indexes bs)
  make_edge_to-IsLinked f none bs cs l h = cc
  make_edge_to-IsLinked f (some t) bs cs l h = make_edge-IsLinked f t bs cs l h

  make_edges-IsLinked :
      (f : ℕ) (o p : Option ℕ) (bs cs : List (Block D))
      → IsLinked bs
      → (make_edge_to f o bs >>= make_edge_to f p) ≡ some cs
      → IsLinked cs × (indexes cs ≡ indexes bs)
  make_edges-IsLinked f o p bs cs l h =
      let (ms, first, second) = >>=-eq-some (make_edge_to f o bs) (make_edge_to f p) h in
      let r = make_edge_to-IsLinked f o bs ms l first in
      let s = make_edge_to-IsLinked f p ms cs r.0 second in (s.0, s.1 ∙ r.1)

  edges_of_last-IsLinked :
      (f : ℕ) (last : Option (Quadruple D)) (next : Option ℕ) (bs cs : List (Block D))
      → IsLinked bs
      → edges_of_last f last next bs ≡ some cs
      → IsLinked cs × (indexes cs ≡ indexes bs)
  unfolding edges_of_last
  edges_of_last-IsLinked f none next bs cs l h = make_edge_to-IsLinked f next bs cs l h
  edges_of_last-IsLinked f (some q) next bs cs l h = elim (Bool-cases (same q.op Operator.goto)) [
    | inl jump ↦ make_edge_to-IsLinked f q.block bs cs l (rw jump at h)
    | inr other ↦ elim (Bool-cases (is_if q.op || is_if_false q.op)) [
      | inl branch ↦ make_edges-IsLinked f q.block next bs cs l (rw (other, branch) at h)
      | inr plain ↦ make_edge_to-IsLinked f next bs cs l (rw (other, plain) at h)
    ]
  ]

  edges_of-IsLinked :
      (b : Block D) (next : Option ℕ) (bs cs : List (Block D))
      → IsLinked bs
      → edges_of b next bs ≡ some cs
      → IsLinked cs × (indexes cs ≡ indexes bs)
  unfolding edges_of
  edges_of-IsLinked b next bs cs l h = elim (Bool-cases (b.index == minus_one)) [
    | inl entry ↦ make_edge_to-IsLinked b.index next bs cs l (rw entry at h)
    | inr other ↦ elim (Bool-cases (b.index == minus_two)) [
      | inl exit ↦ let e : bs ≡ cs = ground (arith, h) in rw (← e) (l, refl)
      | inr standard ↦
          edges_of_last-IsLinked b.index (back b.statements) next bs cs l
            (rw (other, standard) at h)
    ]
  ]

  pub build_edges-IsLinked :
      (rest bs cs : List (Block D))
      → IsLinked bs
      → build_edges rest bs ≡ some cs
      → IsLinked cs × (indexes cs ≡ indexes bs)
  unfolding build_edges
  build_edges-IsLinked [] bs cs l h = let e : bs ≡ cs = cc in rw (← e) (l, refl)
  build_edges-IsLinked (b ∷ rest) bs cs l h =
      let (ms, first, later) =
        >>=-eq-some (edges_of b (first_index rest) bs) (build_edges rest) h in
      let r = edges_of-IsLinked b (first_index rest) bs ms l first in
      let s = build_edges-IsLinked rest ms cs r.0 later in (s.0, s.1 ∙ r.1)

  -- The neighbours of a block in the list.
  pub next_of-has : (bs : List (Block D)) (p n : ℕ) → next_of bs p ≡ some n → has bs n ≡ true
  unfolding next_of
  next_of-has [] p n h = cc
  next_of-has (b ∷ []) p n h = ground arith
  next_of-has (b ∷ c ∷ bs) p n h = elim (Bool-cases (b.index == p)) [
    | inl here ↦ let e : c.index ≡ n = (let k = rw here at h in cc) in ground arith
    | inr there ↦ ground (arith, next_of-has (c ∷ bs) p n (rw there at h))
  ]

  pub next_of-ne :
      (bs : List (Block D)) (p n : ℕ) → IsDistinct (indexes bs) → next_of bs p ≡ some n → p ≢ n
  unfolding next_of
  next_of-ne [] p n d h = cc
  next_of-ne (b ∷ []) p n d h = ground arith
  next_of-ne (b ∷ c ∷ bs) p n d h = elim (Bool-cases (b.index == p)) [
    | inl here ↦ let e : c.index ≡ n = (let k = rw here at h in cc) in ground (arith, d.0)
    | inr there ↦ next_of-ne (c ∷ bs) p n d.1 (rw there at h)
  ]

  pub find-has :
      (bs : List (Block D)) (p : ℕ)
      → has bs p ≡ true
      → (b : Block D) × (find bs p ≡ some b)
        × (successors_of bs p ≡ b.successors)
        × (predecessors_of bs p ≡ b.predecessors)
  unfolding find
  find-has [] p h = cc
  find-has (b ∷ bs) p h = elim (Bool-cases (b.index == p)) [
    | inl here ↦ (b, rw here refl, rw here refl, rw here refl)
    | inr there ↦
        let (c, e, s, q) = find-has bs p (ground arith) in (c, rw there e, rw there s, rw there q)
  ]

  pub next_of_self : (bs : List (Block D)) (p n : ℕ) → next_of bs p ≡ some n → has bs p ≡ true
  unfolding next_of
  next_of_self [] p n h = cc
  next_of_self (b ∷ bs) p n h = ground (arith, next_of_self bs p n)
