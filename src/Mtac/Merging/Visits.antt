-- ===== src/Mtac/Merging/Visits.antt =====
-- src/mtac/merge_basic_blocks.cpp: the visit of a block, where it may be merged with the next one.
use eddic.Mtac.Merging.Steps.{IsStep, forward_lem, erased_lem, merged_lem, mergeable-some}
use eddic.Prelude.{
  ℕ, ◌≡◌, refl, sym, ap, ◌∙◌, arith, Bool, true, false, ◌&&◌, Option, some, List, [], ◌∷◌, ◌==◌,
  contains, Bool-cases, Option-cases, inl, inr, ◌>>=◌,
}
use eddic.Word.{minus_one}
use eddic.Mtac.Operator
use eddic.Mtac.Operator.{same, is_if, is_if_false}
use eddic.Mtac.Quadruple.{Quadruple}
use eddic.Mtac.Function.{Block, find, next_of, minus_two}
use eddic.Mtac.Function.Edges.{has}
use eddic.Mtac.Function.Linked.{find-has, next_of-has}
use eddic.Mtac.Merging.{
  Callees, Merging, Move, forward, back_again, ended, is_safe_call, starts_safely, is_mergeable,
  merge_in, erase_block, visit_empty, try_merge, moved, size_no_nop,
}
use eddic.Mtac.Merging.Framed.{IsFramed, calls_found, all_blocks-find}
use eddic.Mtac.Merging.Removes.{remove_lem}
use eddic.Mtac.Merging.Merges.{merge_lem, next_of-entry}
use eddic.Mtac.Merging.Used.{AllUsed}
use eddic.Mtac.Merging.Code.{shape}
use eddic.Mtac.Merging.Refined.{IsRefined, IsRefined-dropped, IsRefined-merged}
use mathlib.Core.Path.{subst}

module _ {D : Type 0} where
  -- What a visit of the block `i` comes to.
  abbrev pub Visited : Callees → Merging D → ℕ → Option (Merging D × Move) → Type 0
  Visited c s i r = (t : Merging D) × (m : Move) × (r ≡ some (t, m)) × IsStep c s i t (moved i t m)

  starts_total :
      (c : Callees) (qs : List (Quadruple D))
      → calls_found c qs ≡ true
      → (b : Bool) × (starts_safely c qs ≡ some b)
  unfolding starts_safely
  starts_total c [] h = (true, refl)
  starts_total c (q ∷ qs) h = elim (Bool-cases (same q.op Operator.call)) [
    | inl call ↦ elim (Option-cases (is_safe_call c q)) [
      | inl e ↦ absurd (let k = rw (call, e) at h in cc)
      | inr (b, e) ↦ (b, rw call e)
    ]
    | inr other ↦ (true, rw other refl)
  ]

  module _ (c : Callees) (s : Merging D) (i : ℕ) (there : has s.function.blocks i ≡ true)
      (v : IsFramed c s.function) (used : AllUsed s.usage (shape s.function.blocks))
      (not_entry : (minus_one == i) ≡ false) (not_exit : (minus_two == i) ≡ false) where
    stays_put : Visited c s i (some (s, forward))
    unfolding moved
    stays_put = (s, forward, refl, forward_lem c s i there v used not_exit)

    merge_in_lem :
        (n : ℕ)
        → next_of s.function.blocks i ≡ some n
        → (minus_two == n) ≡ false
        → contains s.usage n ≡ false
        → Visited c s i (merge_in i (some n) s)
    unfolding merge_in moved
    merge_in_lem n h m free =
        let bs = s.function.blocks in
        let (g, done, e, l) = merge_lem c i n s.function v h m in
        (
          record s { function = g; optimized = true },
          back_again,
          rw (done, ◌>>=◌) refl,
          merged_lem c s i there n g v not_entry h l (
              subst (IsRefined s.usage (shape bs)) (sym e) (
                IsRefined-merged s.usage bs v.valid.distinct used i n h
                  (next_of-entry c i n s.function v h) free)),
        )

    pub try_merge_lem :
        (merge : Bool) → Visited c s i (try_merge c i (next_of s.function.blocks i) s merge)
    unfolding try_merge
    try_merge_lem merge =
        elim (Bool-cases (merge && is_mergeable s.usage (next_of s.function.blocks i))) [
          | inl both ↦
              let bs = s.function.blocks in
              let (n, h, m, free) = mergeable-some s.usage (next_of bs i) (ground (arith, both)) in
              let (b, found, _, _) = find-has bs n (next_of-has bs i n h) in
              let known = all_blocks-find (calls_found c) n b bs found v.known in
              let (safely, e) = starts_total c b.statements known in
              elim (Bool-cases safely) [
                | inl yes' ↦
                    rw (both, h, ◌>>=◌)
                      (rw (found, ◌>>=◌) (rw (e ∙ ap some yes', ◌>>=◌) (merge_in_lem n h m free)))
                | inr no' ↦
                    rw (both, h, ◌>>=◌) (rw (found, ◌>>=◌) (rw (e ∙ ap some no', ◌>>=◌) stays_put))
              ]
          | inr neither ↦ rw neither stays_put
        ]

    pub visit_empty_lem :
        (b : Block D)
        → find s.function.blocks i ≡ some b
        → size_no_nop b.statements ≡ 0
        → Visited c s i (visit_empty i (next_of s.function.blocks i) s)
    unfolding visit_empty erase_block moved
    visit_empty_lem b found z = elim (Bool-cases (contains s.usage i)) [
      | inl needed ↦ elim (Bool-cases (is_mergeable s.usage (next_of s.function.blocks i))) [
        | inl able ↦
            let (n, h, m, free) = mergeable-some s.usage (next_of s.function.blocks i) able in
            rw (needed, able) (rw h (merge_in_lem n h m free))
        | inr busy ↦ rw (needed, busy) stays_put
      ]
      | inr unused ↦
          let (g, done, e, l) = remove_lem c i s.function b v there found z not_entry not_exit in
          rw unused (
            record s { function = g; optimized = true },
            ended,
            rw (done, ◌>>=◌) refl,
            erased_lem c s i there i g l (
                subst (IsRefined s.usage (shape s.function.blocks)) (sym e) (
                  IsRefined-dropped s.usage s.function.blocks v.valid.distinct used i b found z
                    not_entry unused)),
          )
    ]
