-- ===== src/Mtac/Merging/Used.antt =====
-- src/mtac/merge_basic_blocks.cpp: the set of the blocks that are used has every block that a statement
-- may jump to, and so the operations that the pass calls keep the runs of the function.
use eddic.Prelude.{
  ℕ, ◌≡◌, refl, arith, true, false, Option, some, List, [], ◌∷◌, ◌++◌, contains, Option-cases, inl,
  inr,
}
use eddic.Word.{minus_one}
use eddic.Mtac.Quadruple.{Doubles, Quadruple}
use eddic.Mtac.Meaning.{Value}
use eddic.Mtac.Function.{Block}
use eddic.Mtac.Branches.Flow.{Flow}
use eddic.Mtac.Merging.{use_blocks, compute_block_usage, pop_back}
use eddic.Mtac.Merging.Code.{Places, shape, drop_place, edit_place}
use eddic.Mtac.Merging.Framed.{all_places, all_places-drop, all_places-edit}
use eddic.Mtac.Merging.Runs.{avoids, statements_at, Runs, JumpsToBlock}
use eddic.Mtac.Merging.Lookups.{avoids-at}

module _ {D : Type 0} where
  -- A block that is not used is not jumped to.
  abbrev pub AllUsed : List ℕ → Places D → Type 0
  AllUsed usage ps = (n : ℕ) → contains usage n ≡ false → all_places (avoids n) ps ≡ true

  -- Every run from the entry is one of the other blocks.
  abbrev pub Refines : Places D → Places D → Type 0
  Refines ps qs =
      (d : Doubles D) (other : Quadruple D → (ℕ → Value D) → Option ((ℕ → Value D) × Flow))
      → JumpsToBlock d other
      → (env final : ℕ → Value D) → Runs d other ps (some minus_one) env final
      → Runs d other qs (some minus_one) env final

  pub Refines-trans : (ps qs rs : Places D) → Refines ps qs → Refines qs rs → Refines ps rs
  Refines-trans ps qs rs f g d other law env final r =
      g d other law env final (f d other law env final r)

  use_blocks-avoids :
      (n : ℕ) (qs : List (Quadruple D)) (usage : List ℕ)
      → contains (use_blocks qs usage) n ≡ false
      → (avoids n qs ≡ true) × (contains usage n ≡ false)
  unfolding use_blocks
  use_blocks-avoids n [] usage h = (refl, h)
  use_blocks-avoids n (q ∷ qs) usage h = elim (Option-cases q.block) [
    | inl e ↦ let (a, k) = use_blocks-avoids n qs usage (rw e at h) in (rw e a, k)
    | inr (p, e) ↦
        let (a, k) = use_blocks-avoids n qs (p ∷ usage) (rw e at h) in
        (rw e (ground (arith, a, k)), ground (arith, k))
  ]

  compute_block_usage-avoids :
      (n : ℕ) (bs : List (Block D)) (usage : List ℕ)
      → contains (compute_block_usage bs usage) n ≡ false
      → (all_places (avoids n) (shape bs) ≡ true) × (contains usage n ≡ false)
  unfolding compute_block_usage
  compute_block_usage-avoids n [] usage h = (refl, h)
  compute_block_usage-avoids n (b ∷ bs) usage h =
      let (a, k) = compute_block_usage-avoids n bs (use_blocks b.statements usage) h in
      let (x, y) = use_blocks-avoids n b.statements usage k in (rw (x, a) refl, y)

  pub AllUsed-computed :
      (bs : List (Block D)) (usage : List ℕ) → AllUsed (compute_block_usage bs usage) (shape bs)
  AllUsed-computed bs usage n h = (compute_block_usage-avoids n bs usage h).0

  avoids-append :
      (n : ℕ) (xs ys : List (Quadruple D))
      → avoids n xs ≡ true
      → avoids n ys ≡ true
      → avoids n (xs ++ ys) ≡ true
  avoids-append n [] ys h k = k
  avoids-append n (x ∷ xs) ys h k = ground (arith, avoids-append n xs ys, h, k)

  avoids-pop_back :
      (n : ℕ) (xs : List (Quadruple D)) → avoids n xs ≡ true → avoids n (pop_back xs) ≡ true
  avoids-pop_back n [] h = refl
  avoids-pop_back n (x ∷ []) h = refl
  avoids-pop_back n (x ∷ y ∷ xs) h = ground (arith, avoids-pop_back n (y ∷ xs), h)

  pub AllUsed-dropped :
      (usage : List ℕ) (p : ℕ) (ps : Places D) → AllUsed usage ps → AllUsed usage (drop_place p ps)
  AllUsed-dropped usage p ps u n h = all_places-drop (avoids n) p ps (u n h)

  pub AllUsed-merged :
      (usage : List ℕ) (p m : ℕ) (ps : Places D)
      → AllUsed usage ps
      → AllUsed usage (drop_place m (edit_place (λ qs. qs ++ statements_at ps m) p ps))
  AllUsed-merged usage p m ps u n h =
      all_places-drop (avoids n) m (edit_place (λ qs. qs ++ statements_at ps m) p ps) (
        all_places-edit (avoids n) (λ qs. qs ++ statements_at ps m) p ps
          (λ qs a.
            avoids-append n qs (statements_at ps m) a (avoids-at (avoids n) m ps refl (u n h)))
          (u n h))

  pub AllUsed-popped :
      (usage : List ℕ) (p : ℕ) (ps : Places D)
      → AllUsed usage ps
      → AllUsed usage (edit_place pop_back p ps)
  AllUsed-popped usage p ps u n h =
      all_places-edit (avoids n) pop_back p ps (avoids-pop_back n) (u n h)
