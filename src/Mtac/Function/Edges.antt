-- ===== src/Mtac/Function/Edges.antt =====
-- src/mtac/ControlFlowGraph.cpp: how make_edge and remove_edge change the edges, counted at both ends.
use eddic.Prelude.{
  ℕ, suc, ◌+◌, ◌<◌, ◌≡◌, refl, sym, ap, ◌∙◌, arith, Bool, true, false, ◌&&◌, some, List, [], ◌∷◌,
  ◌==◌, contains, if◌then◌else◌, Bool-cases, inl, inr, ==_iff,
}
use eddic.Mtac.Quadruple.{Quadruple}
use eddic.Mtac.Function.{
  Block, indexes, push_back, erase_all, edit_successors, edit_predecessors, make_edge, remove_edge,
}

abbrev pub count : ℕ → List ℕ → ℕ
count a [] = 0
count a (x ∷ xs) = if x == a then suc (count a xs) else count a xs

module _ {D : Type 0} where
  -- the edges that the block with that pointer holds
  abbrev pub successors_of : List (Block D) → ℕ → List ℕ
  successors_of [] a = []
  successors_of (b ∷ bs) a = if b.index == a then b.successors else successors_of bs a

  abbrev pub predecessors_of : List (Block D) → ℕ → List ℕ
  predecessors_of [] a = []
  predecessors_of (b ∷ bs) a = if b.index == a then b.predecessors else predecessors_of bs a

  abbrev pub has : List (Block D) → ℕ → Bool
  has bs a = contains (indexes bs) a

  -- a test of the statements of all blocks
  abbrev pub all_blocks : (List (Quadruple D) → Bool) → List (Block D) → Bool
  all_blocks test [] = true
  all_blocks test (b ∷ bs) = test b.statements && all_blocks test bs

pub count-push_back :
    (a x : ℕ) (xs : List ℕ) → count a (push_back x xs) ≡ count a xs + (if x == a then 1 else 0)
count-push_back a x [] = ground arith
count-push_back a x (y ∷ ys) = ground (arith, count-push_back a x ys)

pub count-erase_all :
    (a x : ℕ) (xs : List ℕ) → count a (erase_all x xs) ≡ (if x == a then 0 else count a xs)
count-erase_all a x [] = ground arith
count-erase_all a x (y ∷ ys) = ground (arith, count-erase_all a x ys)

pub count-contains : (a : ℕ) (xs : List ℕ) → contains xs a ≡ false → count a xs ≡ 0
count-contains a [] h = refl
count-contains a (x ∷ xs) h = ground (arith, count-contains a xs)

pub contains-count : (a : ℕ) (xs : List ℕ) → contains xs a ≡ true → 0 < count a xs
contains-count a [] h = cc
contains-count a (x ∷ xs) h = ground (arith, contains-count a xs)

module _ {D : Type 0} (g : List ℕ → List ℕ) (p : ℕ) where
  pub indexes-edit_successors :
      (bs : List (Block D)) → indexes (edit_successors g p bs) ≡ indexes bs
  unfolding edit_successors
  indexes-edit_successors [] = refl
  indexes-edit_successors (b ∷ bs) = ground (arith, indexes-edit_successors bs)

  pub indexes-edit_predecessors :
      (bs : List (Block D)) → indexes (edit_predecessors g p bs) ≡ indexes bs
  unfolding edit_predecessors
  indexes-edit_predecessors [] = refl
  indexes-edit_predecessors (b ∷ bs) = ground (arith, indexes-edit_predecessors bs)

  pub all_blocks-edit_successors :
      (test : List (Quadruple D) → Bool) (bs : List (Block D))
      → all_blocks test (edit_successors g p bs) ≡ all_blocks test bs
  unfolding edit_successors
  all_blocks-edit_successors test [] = refl
  all_blocks-edit_successors test (b ∷ bs) = ground (arith, all_blocks-edit_successors test bs)

  pub all_blocks-edit_predecessors :
      (test : List (Quadruple D) → Bool) (bs : List (Block D))
      → all_blocks test (edit_predecessors g p bs) ≡ all_blocks test bs
  unfolding edit_predecessors
  all_blocks-edit_predecessors test [] = refl
  all_blocks-edit_predecessors test (b ∷ bs) = ground (arith, all_blocks-edit_predecessors test bs)

  pub predecessors-edit_successors :
      (bs : List (Block D)) (a : ℕ)
      → predecessors_of (edit_successors g p bs) a ≡ predecessors_of bs a
  unfolding edit_successors
  predecessors-edit_successors [] a = refl
  predecessors-edit_successors (b ∷ bs) a = ground (arith, predecessors-edit_successors bs a)

  pub successors-edit_predecessors :
      (bs : List (Block D)) (a : ℕ)
      → successors_of (edit_predecessors g p bs) a ≡ successors_of bs a
  unfolding edit_predecessors
  successors-edit_predecessors [] a = refl
  successors-edit_predecessors (b ∷ bs) a = ground (arith, successors-edit_predecessors bs a)

  pub successors-edit_successors :
      (bs : List (Block D)) (a : ℕ)
      → successors_of (edit_successors g p bs) a
        ≡ (if p == a && has bs a then g (successors_of bs a) else successors_of bs a)
  unfolding edit_successors
  successors-edit_successors [] a = ground arith
  successors-edit_successors (b ∷ bs) a = ground (arith, successors-edit_successors bs a)

  pub predecessors-edit_predecessors :
      (bs : List (Block D)) (a : ℕ)
      → predecessors_of (edit_predecessors g p bs) a
        ≡ (if p == a && has bs a then g (predecessors_of bs a) else predecessors_of bs a)
  unfolding edit_predecessors
  predecessors-edit_predecessors [] a = ground arith
  predecessors-edit_predecessors (b ∷ bs) a = ground (arith, predecessors-edit_predecessors bs a)

module _ {D : Type 0} where
  -- how many edges lead from `a` to `b`, by the successors of `a` and by the predecessors of `b`
  abbrev pub out : List (Block D) → ℕ → ℕ → ℕ
  out bs a b = count b (successors_of bs a)

  abbrev pub into : List (Block D) → ℕ → ℕ → ℕ
  into bs a b = count a (predecessors_of bs b)

  pub successors-absent : (bs : List (Block D)) (a : ℕ) → has bs a ≡ false → successors_of bs a ≡ []
  successors-absent [] a h = refl
  successors-absent (b ∷ bs) a h = ground (arith, successors-absent bs a)

  pub predecessors-absent :
      (bs : List (Block D)) (a : ℕ) → has bs a ≡ false → predecessors_of bs a ≡ []
  predecessors-absent [] a h = refl
  predecessors-absent (b ∷ bs) a h = ground (arith, predecessors-absent bs a)

  pub out-push :
      (bs : List (Block D)) (p x a b : ℕ)
      → has bs p ≡ true
      → out (edit_successors (push_back x) p bs) a b
        ≡ out bs a b + (if p == a && x == b then 1 else 0)
  out-push bs p x a b h = elim (Bool-cases (p == a)) [
    | inl same ↦
        let there : has bs a ≡ true = sym (ap (has bs) ((==_iff p a).0 same)) ∙ h in
        ground (
          arith,
          successors-edit_successors (push_back x) p bs a,
          count-push_back b x (successors_of bs a),
        )
    | inr other ↦ ground (arith, successors-edit_successors (push_back x) p bs a)
  ]

  pub into-push :
      (bs : List (Block D)) (p x a b : ℕ)
      → has bs p ≡ true
      → into (edit_predecessors (push_back x) p bs) a b
        ≡ into bs a b + (if x == a && p == b then 1 else 0)
  into-push bs p x a b h = elim (Bool-cases (p == b)) [
    | inl same ↦
        let there : has bs b ≡ true = sym (ap (has bs) ((==_iff p b).0 same)) ∙ h in
        ground (
          arith,
          predecessors-edit_predecessors (push_back x) p bs b,
          count-push_back a x (predecessors_of bs b),
        )
    | inr other ↦ ground (arith, predecessors-edit_predecessors (push_back x) p bs b)
  ]

  pub out-erase :
      (bs : List (Block D)) (p x a b : ℕ)
      → out (edit_successors (erase_all x) p bs) a b ≡ (if p == a && x == b then 0 else out bs a b)
  out-erase bs p x a b = ground (
    arith,
    successors-edit_successors (erase_all x) p bs a,
    count-erase_all b x (successors_of bs a),
    successors-absent bs a,
  )

  pub into-erase :
      (bs : List (Block D)) (p x a b : ℕ)
      → into (edit_predecessors (erase_all x) p bs) a b
        ≡ (if x == a && p == b then 0 else into bs a b)
  into-erase bs p x a b = ground (
    arith,
    predecessors-edit_predecessors (erase_all x) p bs b,
    count-erase_all a x (predecessors_of bs b),
    predecessors-absent bs b,
  )

  -- What an operation that adds `k` edges from `f` to `t` does.
  pub record IsAdded (f t k : ℕ) (bs cs : List (Block D)) : Type 0 where
    pub same_indexes : indexes cs ≡ indexes bs
    pub same_tests : (test : List (Quadruple D) → Bool) → all_blocks test cs ≡ all_blocks test bs
    pub more_out : (a b : ℕ) → out cs a b ≡ out bs a b + (if f == a && t == b then k else 0)
    pub more_into : (a b : ℕ) → into cs a b ≡ into bs a b + (if f == a && t == b then k else 0)

  pub make_edge-IsAdded :
      (f t : ℕ) (bs : List (Block D))
      → has bs f ≡ true
      → has bs t ≡ true
      → (cs : List (Block D)) × (make_edge f t bs ≡ some cs) × IsAdded f t 1 bs cs
  unfolding make_edge
  make_edge-IsAdded f t bs hf ht =
      let mid = edit_successors (push_back t) f bs in
      let e = indexes-edit_successors (push_back t) f bs in
      (
        edit_predecessors (push_back f) t mid,
        rw (hf, ht) refl,
        record {
          same_indexes = indexes-edit_predecessors (push_back f) t mid ∙ e;
          same_tests = λ test.
              all_blocks-edit_predecessors (push_back f) t test mid
              ∙ all_blocks-edit_successors (push_back t) f test bs;
          more_out = λ a b.
              ap (count b) (successors-edit_predecessors (push_back f) t mid a)
              ∙ out-push bs f t a b hf;
          more_into = λ a b.
              into-push mid t f a b (ap (λ l. contains l t) e ∙ ht)
              ∙ ap (λ n. count a n + (if f == a && t == b then 1 else 0))
                  (predecessors-edit_successors (push_back t) f bs b);
        },
      )

  pub make_edge-eq-some :
      (f t : ℕ) (bs cs : List (Block D))
      → make_edge f t bs ≡ some cs
      → (has bs f ≡ true) × (has bs t ≡ true)
  unfolding make_edge
  make_edge-eq-some f t bs cs h = ground arith

  pub out-remove_edge :
      (f t : ℕ) (bs : List (Block D)) (a b : ℕ)
      → out (remove_edge f t bs) a b ≡ (if f == a && t == b then 0 else out bs a b)
  unfolding remove_edge
  out-remove_edge f t bs a b =
      ap (count b)
        (successors-edit_predecessors (erase_all f) t (edit_successors (erase_all t) f bs) a)
      ∙ out-erase bs f t a b

  pub into-remove_edge :
      (f t : ℕ) (bs : List (Block D)) (a b : ℕ)
      → into (remove_edge f t bs) a b ≡ (if f == a && t == b then 0 else into bs a b)
  unfolding remove_edge
  into-remove_edge f t bs a b =
      into-erase (edit_successors (erase_all t) f bs) t f a b
      ∙ ap (λ l. if f == a && t == b then 0 else count a l)
          (predecessors-edit_successors (erase_all t) f bs b)

  pub indexes-remove_edge :
      (f t : ℕ) (bs : List (Block D)) → indexes (remove_edge f t bs) ≡ indexes bs
  unfolding remove_edge
  indexes-remove_edge f t bs =
      indexes-edit_predecessors (erase_all f) t (edit_successors (erase_all t) f bs)
      ∙ indexes-edit_successors (erase_all t) f bs
