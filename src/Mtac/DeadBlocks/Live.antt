-- ===== src/Mtac/DeadBlocks/Live.antt =====
-- src/mtac/remove_dead_basic_blocks.cpp: the live blocks, by the indexes of the blocks and by a function
-- that gives their predecessors.
use mathlib.Core.Bool.{not}
use eddic.Prelude.{
  ℕ, ◌≡◌, refl, sym, ap, ◌∙◌, arith, Bool, true, false, ◌||◌, List, [], ◌∷◌, ◌==◌, contains, retain,
  if◌then◌else◌, Bool-cases, inl, inr, ==_iff, IsDistinct,
}
use eddic.Word.{is_negative}
use eddic.Mtac.Function.{Block, indexes}
use eddic.Mtac.Function.Edges.{has, predecessors_of}
use eddic.Mtac.DeadBlocks.{meets, live_loop}

-- a block of the list, once it is looked at
abbrev pub visited : (ℕ → List ℕ) → ℕ → List ℕ → List ℕ
visited preds i live = if is_negative i || meets live (preds i) then i ∷ live else live

unfoldable pub live_of : (ℕ → List ℕ) → List ℕ → List ℕ → List ℕ
live_of preds [] live = live
live_of preds (i ∷ is) live = live_of preds is (visited preds i live)

-- whether `y` stands in the list before `x`
abbrev pub precedes : List ℕ → ℕ → ℕ → Bool
precedes [] y x = false
precedes (i ∷ is) y x = if i == y then contains is x else precedes is y x

contains-eq : (xs : List ℕ) (a b : ℕ) → (a == b) ≡ true → contains xs a ≡ contains xs b
contains-eq xs a b h = ap (contains xs) ((==_iff a b).0 h)

pub meets_intro :
    (live ps : List ℕ) (y : ℕ)
    → contains ps y ≡ true
    → contains live y ≡ true
    → meets live ps ≡ true
meets_intro live [] y h k = cc
meets_intro live (p ∷ ps) y h k = elim (Bool-cases (y == p)) [
  | inl here ↦ let e = contains-eq live y p here in ground (arith, e, k)
  | inr there ↦ ground (arith, meets_intro live ps y, h, k)
]

pub meets_elim :
    (live ps : List ℕ)
    → meets live ps ≡ true
    → (y : ℕ) × (contains ps y ≡ true) × (contains live y ≡ true)
meets_elim live [] h = cc
meets_elim live (p ∷ ps) h = elim (Bool-cases (contains live p)) [
  | inl here ↦ (p, ground arith, here)
  | inr there ↦ let (y, a, b) = meets_elim live ps (rw there at h) in (y, ground (arith, a), b)
]

meets_ext :
    (live ps qs : List ℕ)
    → ((y : ℕ) → contains live y ≡ true → contains ps y ≡ contains qs y)
    → meets live ps ≡ meets live qs
meets_ext live ps qs same = elim (Bool-cases (meets live ps)) [
  | inl hit ↦
      let (y, a, b) = meets_elim live ps hit in
      hit ∙ sym (meets_intro live qs y (sym (same y b) ∙ a) b)
  | inr miss ↦ elim (Bool-cases (meets live qs)) [
    | inl hit ↦
        let (y, a, b) = meets_elim live qs hit in
        let k = meets_intro live ps y (same y b ∙ a) b in cc
    | inr miss' ↦ miss ∙ sym miss'
  ]
]

module _ (preds : ℕ → List ℕ) where
  visited_kept :
      (i x : ℕ) (live : List ℕ) → contains live x ≡ true → contains (visited preds i live) x ≡ true
  visited_kept i x live h = ground arith

  -- A live block stays live, and a block is made live only when it is looked at.
  pub live_of_kept :
      (is live : List ℕ) (x : ℕ)
      → contains live x ≡ true
      → contains (live_of preds is live) x ≡ true
  unfolding live_of
  live_of_kept [] live x h = h
  live_of_kept (i ∷ is) live x h =
      live_of_kept is (visited preds i live) x (visited_kept i x live h)

  pub live_of_others :
      (is live : List ℕ) (x : ℕ)
      → contains is x ≡ false
      → contains (live_of preds is live) x ≡ contains live x
  unfolding live_of
  live_of_others [] live x h = refl
  live_of_others (i ∷ is) live x h =
      live_of_others is (visited preds i live) x (ground (arith, h)) ∙ ground (arith, h)

  pub live_of-negative :
      (is live : List ℕ) (x : ℕ)
      → contains is x ≡ true
      → is_negative x ≡ true
      → contains (live_of preds is live) x ≡ true
  unfolding live_of
  live_of-negative [] live x h n = cc
  live_of-negative (i ∷ is) live x h n = elim (Bool-cases (x == i)) [
    | inl here ↦
        let e : is_negative i ≡ true = sym (ap is_negative ((==_iff x i).0 here)) ∙ n in
        live_of_kept is (visited preds i live) x (rw e (rw here refl))
    | inr there ↦ live_of-negative is (visited preds i live) x (rw there at h) n
  ]

  -- A block with a live predecessor is made live if it is still to be looked at.
  after_live :
      (is live : List ℕ) (x y : ℕ)
      → contains live y ≡ true
      → contains is x ≡ true
      → contains (preds x) y ≡ true
      → contains (live_of preds is live) x ≡ true
  unfolding live_of
  after_live [] live x y l h p = cc
  after_live (i ∷ is) live x y l h p = elim (Bool-cases (x == i)) [
    | inl here ↦
        let e : meets live (preds i) ≡ true =
          meets_intro live (preds i) y
            (sym (ap (λ n. contains (preds n) y) ((==_iff x i).0 here)) ∙ p) l in
        live_of_kept is (visited preds i live) x (ground (arith, e, here))
    | inr there ↦
        after_live is (visited preds i live) x y (visited_kept i y live l) (rw there at h) p
  ]

  pub live_of-precedes :
      (is live : List ℕ) (x y : ℕ)
      → IsDistinct is
      → contains (live_of preds is live) y ≡ true
      → precedes is y x ≡ true
      → contains (preds x) y ≡ true
      → contains (live_of preds is live) x ≡ true
  unfolding live_of
  live_of-precedes [] live x y d l h p = cc
  live_of-precedes (i ∷ is) live x y d l h p = elim (Bool-cases (i == y)) [
    | inl here ↦
        let absent : contains is y ≡ false = sym (contains-eq is i y here) ∙ d.0 in
        after_live is (visited preds i live) x y
          (sym (live_of_others is (visited preds i live) y absent) ∙ l) (rw here at h) p
    | inr there ↦ live_of-precedes is (visited preds i live) x y d.1 l (rw there at h) p
  ]

not_before :
    (preds : ℕ → List ℕ) (is live : List ℕ) (p : ℕ)
    → contains (live_of preds is live) p ≡ false
    → contains live p ≡ false
not_before preds is live p h = elim (Bool-cases (contains live p)) [
  | inl old ↦ let k = live_of_kept preds is live p old in cc
  | inr new ↦ new
]

not_visited :
    (preds : ℕ → List ℕ) (i p : ℕ) (live : List ℕ)
    → contains (visited preds i live) p ≡ false
    → (i == p) ≡ true
    → visited preds i live ≡ live
not_visited preds i p live h e = ground (arith, h)

apart :
    (live : List ℕ) (y p : ℕ) → contains live y ≡ true → contains live p ≡ false → (y == p) ≡ false
apart live y p l m = elim (Bool-cases (y == p)) [
  | inl same ↦ let k = contains-eq live y p same in cc
  | inr other ↦ other
]

-- A block that is not live can be taken out of the list.
pub live_of-retain :
    (preds preds' : ℕ → List ℕ) (p : ℕ) (is live : List ℕ)
    → ((x y : ℕ)
        → (x == p) ≡ false
        → (y == p) ≡ false
        → contains (preds' x) y ≡ contains (preds x) y)
    → contains (live_of preds is live) p ≡ false
    → live_of preds' (retain (λ x. not (x == p)) is) live ≡ live_of preds is live
unfolding live_of
live_of-retain preds preds' p [] live same h = refl
live_of-retain preds preds' p (i ∷ is) live same h =
    let old : contains live p ≡ false = not_before preds (i ∷ is) live p h in
    elim (Bool-cases (i == p)) [
      | inl here ↦
          let v : visited preds i live ≡ live =
            not_visited preds i p live (not_before preds is (visited preds i live) p h) here in
          rw (here, v) (live_of-retain preds preds' p is live same (rw v at h))
      | inr other ↦
          let m : meets live (preds' i) ≡ meets live (preds i) =
            meets_ext live (preds' i) (preds i) (λ y l. same i y other (apart live y p l old)) in
          let v : visited preds' i live ≡ visited preds i live =
            ap (λ n. if is_negative i || n then i ∷ live else live) m in
          rw (other) (
            ap (live_of preds' (retain (λ x. not (x == p)) is)) v
            ∙ live_of-retain preds preds' p is (visited preds i live) same h)
    ]

pick : (i : ℕ) (xs ys : List ℕ) → (if i == i then xs else ys) ≡ xs
pick i xs ys = ground arith

skip : (i x : ℕ) (xs ys : List ℕ) → (x == i) ≡ false → (if i == x then xs else ys) ≡ ys
skip i x xs ys h = ground (arith, h)

pub live_loop-live_of :
    {D : Type 0} (preds : ℕ → List ℕ) (bs : List (Block D)) (live : List ℕ)
    → IsDistinct (indexes bs)
    → ((x : ℕ) → has bs x ≡ true → predecessors_of bs x ≡ preds x)
    → live_loop bs live ≡ live_of preds (indexes bs) live
unfolding live_loop live_of
live_loop-live_of preds [] live d same = refl
live_loop-live_of preds (b ∷ bs) live d same =
    let here : b.predecessors ≡ preds b.index =
      sym (pick b.index b.predecessors (predecessors_of bs b.index))
      ∙ same b.index (ground arith) in
    ap (λ ps. live_loop bs (if is_negative b.index || meets live ps then b.index ∷ live else live))
      here
    ∙ live_loop-live_of preds bs (visited preds b.index live) d.1 (λ x m.
      sym
        (skip b.index x b.predecessors (predecessors_of bs x) (apart (indexes bs) x b.index m d.0))
      ∙ same x (ground (arith, m)))
