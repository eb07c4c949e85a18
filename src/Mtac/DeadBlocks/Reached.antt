-- ===== src/Mtac/DeadBlocks/Reached.antt =====
-- src/mtac/remove_dead_basic_blocks.cpp: a block is live if a chain of edges leads to it, each of which
-- goes forward in the list of blocks.
use eddic.Prelude.{
  ℕ, ◌≡◌, ◌↔◌, refl, sym, ap, ◌∙◌, arith, true, false, List, [], ◌∷◌, ◌==◌, contains, Bool-cases,
  inl, inr, ==_iff, IsDistinct,
}
use eddic.Word.{is_negative}
use eddic.Mtac.Function.{Block, indexes}
use eddic.Mtac.Function.Edges.{has, predecessors_of}
use eddic.Mtac.DeadBlocks.{meets, live_loop}
use eddic.Mtac.DeadBlocks.Live.{
  visited, live_of, precedes, meets_elim, live_of-negative, live_of-precedes, live_loop-live_of,
}

-- The entry or the exit, or a block with an edge to it from a block before it that is reached.
pub data IsReached {D : Type 0} (bs : List (Block D)) : ℕ → Type 0 where
  special : (x : ℕ) → has bs x ≡ true → is_negative x ≡ true → IsReached bs x
  forward :
      (x y : ℕ)
      → IsReached bs y
      → precedes (indexes bs) y x ≡ true
      → contains (predecessors_of bs x) y ≡ true
      → IsReached bs x

pub precedes-contains : (is : List ℕ) (y x : ℕ) → precedes is y x ≡ true → contains is x ≡ true
precedes-contains [] y x h = cc
precedes-contains (i ∷ is) y x h = ground (arith, h, precedes-contains is y x)

pub precedes-first : (is : List ℕ) (y x : ℕ) → precedes is y x ≡ true → contains is y ≡ true
precedes-first [] y x h = cc
precedes-first (i ∷ is) y x h = ground (arith, h, precedes-first is y x)

precedes-cons :
    (i : ℕ) (is : List ℕ) (y x : ℕ)
    → contains is i ≡ false
    → precedes is y x ≡ true
    → precedes (i ∷ is) y x ≡ true
precedes-cons i is y x d h = elim (Bool-cases (i == y)) [
  | inl same ↦
      let e = ap (contains is) ((==_iff i y).0 same) in let k = precedes-first is y x h in cc
  | inr other ↦ rw other h
]

module _ {D : Type 0} (bs : List (Block D)) where
  abbrev AllReached : List ℕ → Type 0
  AllReached live = (x : ℕ) → contains live x ≡ true → IsReached bs x

  visited_old :
      (i x : ℕ) (live : List ℕ)
      → contains (visited (predecessors_of bs) i live) x ≡ true
      → is_negative i ≡ false
      → meets live (predecessors_of bs i) ≡ false
      → contains live x ≡ true
  visited_old i x live m n h = ground (arith, m)

  visited-precedes :
      (i : ℕ) (is live : List ℕ) (y x : ℕ)
      → contains (visited (predecessors_of bs) i live) y ≡ true
      → contains is x ≡ true
      → ((y x : ℕ)
          → contains live y ≡ true
          → contains (i ∷ is) x ≡ true
          → precedes (indexes bs) y x ≡ true)
      → ((y x : ℕ) → precedes (i ∷ is) y x ≡ true → precedes (indexes bs) y x ≡ true)
      → precedes (indexes bs) y x ≡ true
  visited-precedes i is live y x l m before inside = elim (Bool-cases (i == y)) [
    | inl same ↦ inside y x (rw same m)
    | inr other ↦ before y x (ground (arith, l)) (ground (arith, m))
  ]

  visited-IsReached :
      (i : ℕ) (live : List ℕ)
      → AllReached live
      → has bs i ≡ true
      → ((y : ℕ) → contains live y ≡ true → precedes (indexes bs) y i ≡ true)
      → AllReached (visited (predecessors_of bs) i live)
  visited-IsReached i live r there before x m = elim (Bool-cases (x == i)) [
    | inl same ↦
        let e : x ≡ i = (==_iff x i).0 same in
        let reached : IsReached bs i = elim (Bool-cases (is_negative i)) [
          | inl negative ↦ special i there negative
          | inr plain ↦ elim (Bool-cases (meets live (predecessors_of bs i))) [
            | inl hit ↦
                let (y, p, l) = meets_elim live (predecessors_of bs i) hit in
                forward i y (r y l) (before y l) p
            | inr miss ↦ r i (rw e at (visited_old i x live m plain miss))
          ]
        ] in
        rw e reached
    | inr other ↦ r x (ground (arith, m))
  ]

  -- The loop at the blocks `is`, which stand behind those that are looked at.
  live_of-IsReached :
      (is live : List ℕ)
      → IsDistinct is
      → AllReached live
      → ((x : ℕ) → contains is x ≡ true → has bs x ≡ true)
      → ((y x : ℕ)
          → contains live y ≡ true
          → contains is x ≡ true
          → precedes (indexes bs) y x ≡ true)
      → ((y x : ℕ) → precedes is y x ≡ true → precedes (indexes bs) y x ≡ true)
      → AllReached (live_of (predecessors_of bs) is live)
  unfolding live_of
  live_of-IsReached [] live d r all before inside = r
  live_of-IsReached (i ∷ is) live d r all before inside =
      let next : AllReached (visited (predecessors_of bs) i live) =
        visited-IsReached i live r (all i (ground arith)) (λ y m. before y i m (ground arith)) in
      live_of-IsReached is (visited (predecessors_of bs) i live) d.1 next
        (λ x m. all x (ground (arith, m)))
        (λ y x l m. visited-precedes i is live y x l m before inside)
        (λ y x m. inside y x (precedes-cons i is y x d.0 m))

  IsReached-live_of :
      (x : ℕ)
      → IsDistinct (indexes bs)
      → IsReached bs x
      → contains (live_of (predecessors_of bs) (indexes bs) []) x ≡ true
  IsReached-live_of x d (special _ there negative) =
      live_of-negative (predecessors_of bs) (indexes bs) [] x there negative
  IsReached-live_of x d (forward _ y r before edge) =
      live_of-precedes (predecessors_of bs) (indexes bs) [] x y d (IsReached-live_of y d r) before
        edge

  pub live_loop_iff :
      (x : ℕ) → IsDistinct (indexes bs) → (contains (live_loop bs []) x ≡ true) ↔ IsReached bs x
  live_loop_iff x d =
      let e = live_loop-live_of (predecessors_of bs) bs [] d (λ x m. refl) in
      (
        λ h.
            live_of-IsReached (indexes bs) [] d (λ x m. cc) (λ x m. m) (λ y x m n. cc) (λ y x m. m)
              x (sym (ap (λ l. contains l x) e) ∙ h),
        λ r. ap (λ l. contains l x) e ∙ IsReached-live_of x d r,
      )
