-- ===== src/Mtac/Merging/Ends.antt =====
-- src/mtac/merge_basic_blocks.cpp: the pass ends.
use eddic.Prelude.{
  ℕ, suc, zero, ◌+◌, ◌*◌, ◌≤◌, ◌<◌, ◌≡◌, refl, ap, ◌∙◌, arith, Bool, true, false, Option, none,
  some, List, [], ◌∷◌, Bool-cases, inl, inr, ◌>>=◌,
}
use eddic.Word.{minus_one}
use eddic.Mtac.Function.{Block, Function, indexes, first_index, minus_two}
use eddic.Mtac.Function.Edges.{has}
use eddic.Mtac.Function.Linked.{find-has, next_of-has}
use eddic.Mtac.Function.Valid.{length-indexes}
use eddic.Mtac.DeadBlocks.Framed.{head_of, next_of_exists}
use eddic.Mtac.Merging.{
  Callees, Merging, compute_block_usage, merge_loop, merge_once, merge_calls,
  merge_basic_blocks_pass,
}
use eddic.Mtac.Merging.Places.{rest_from-le}
use eddic.Mtac.Merging.Code.{shape}
use eddic.Mtac.Merging.Kept.{code}
use eddic.Mtac.Merging.Framed.{IsFramed}
use eddic.Mtac.Merging.Steps.{one_if, IsPlace, measure}
use eddic.Mtac.Merging.Used.{AllUsed, AllUsed-computed, Refines, Refines-trans}
use eddic.Mtac.Merging.Rounds.{merge_round_lem}

module _ {D : Type 0} (c : Callees) where
  -- What every part of the pass keeps, with the blocks that are taken away.
  pub record IsMerged (f : Function D) (n : ℕ) (g : Function D) : Type 0 where
    pub merged_framed : IsFramed c g
    pub merged_code : code (shape g.blocks) ≡ code (shape f.blocks)
    pub merged_count : g.count + n ≤ f.count

  loop_lem :
      (fuel : ℕ) (at : Option ℕ) (s : Merging D)
      → IsFramed c s.function
      → AllUsed s.usage (shape s.function.blocks)
      → IsPlace s.function at
      → measure s.function at < fuel
      → (t : Merging D) × (merge_loop fuel c at s ≡ some t)
        × IsFramed c t.function
        × (code (shape t.function.blocks) ≡ code (shape s.function.blocks))
        × (t.function.count + one_if t.optimized ≤ s.function.count + one_if s.optimized)
        × Refines (shape s.function.blocks) (shape t.function.blocks)
  unfolding merge_loop
  loop_lem zero at s v used place h = absurd (omega arith)
  loop_lem (suc fuel) none s v used place h =
      (s, refl, v, refl, omega arith, λ d other law env final r. r)
  loop_lem (suc fuel) (some i) s v used place h =
      let (b, found, _, _) = find-has s.function.blocks i place in
      let (u, at, done, r) = merge_round_lem c s i b v used place found in
      let (t, rest, w, k, n, f) =
        loop_lem fuel at u r.step_framed r.step_refined.all_used r.step_place
          (omega (arith, r.step_measure)) in
      (
        t,
        rw (found, ◌>>=◌) (rw (done, ◌>>=◌) rest),
        w,
        k ∙ r.step_code,
        omega (arith, n, r.step_bound),
        Refines-trans (shape s.function.blocks) (shape u.function.blocks) (shape t.function.blocks)
            r.step_refined.same_runs f,
      )

  first_index-head :
      (bs : List (Block D))
      → head_of (indexes bs) ≡ some minus_one
      → first_index bs ≡ some minus_one
  first_index-head [] h = cc
  first_index-head (b ∷ bs) h = h

  head-has : (bs : List (Block D)) (i : ℕ) → head_of (indexes bs) ≡ some i → has bs i ≡ true
  head-has [] i h = cc
  head-has (b ∷ bs) i h = ground (arith, h)

  once_lem :
      (f : Function D)
      → IsFramed c f
      → (s : Merging D) × (merge_once c f ≡ some s)
        × IsMerged f (one_if s.optimized) s.function
        × Refines (shape f.blocks) (shape s.function.blocks)
  unfolding merge_once
  once_lem f v =
      let bs = f.blocks in
      let entry = first_index-head bs v.head in
      let there : has bs minus_one ≡ true = head-has bs minus_one v.head in
      let (j, h) = next_of_exists minus_two minus_one bs there v.last refl in
      let s : Merging D = record {
        function = f;
        usage = compute_block_usage bs [];
        optimized = false;
      } in
      let (t, done, w, k, n, g) =
        loop_lem (2 * suc f.count) (some j) s v (AllUsed-computed bs [])
          (next_of-has bs minus_one j h)
          (omega (arith, v.valid.counted, length-indexes bs, rest_from-le (indexes bs) j)) in
      (
        t,
        rw (entry, ◌>>=◌) (rw h done),
        record { merged_framed = w; merged_code = k; merged_count = omega (arith, n) },
        g,
      )

  pub calls_lem :
      (fuel : ℕ) (f : Function D)
      → IsFramed c f
      → f.count < fuel
      → (g : Function D) × (o : Bool) × (merge_calls fuel c f ≡ some (g, o))
        × IsMerged f (one_if o) g
        × Refines (shape f.blocks) (shape g.blocks)
  unfolding merge_calls
  calls_lem zero f v h = absurd (omega arith)
  calls_lem (suc fuel) f v h =
      let (s, done, r, x) = once_lem f v in
      elim (Bool-cases s.optimized) [
        | inl changed ↦
            let n = ap one_if changed in
            let (g, o, again, q, y) =
              calls_lem fuel s.function r.merged_framed (omega (arith, r.merged_count, n)) in
            (
              g,
              true,
              rw (done, ◌>>=◌) (rw changed (rw (again, ◌>>=◌) refl)),
              record {
                merged_framed = q.merged_framed;
                merged_code = q.merged_code ∙ r.merged_code;
                merged_count = omega (arith, q.merged_count, r.merged_count, n);
              },
              Refines-trans (shape f.blocks) (shape s.function.blocks) (shape g.blocks) x y,
            )
        | inr same ↦ (
          s.function,
          false,
          rw (done, ◌>>=◌) (rw same refl),
          record {
            merged_framed = r.merged_framed;
            merged_code = r.merged_code;
            merged_count = omega (arith, r.merged_count);
          },
          x,
        )
      ]

  -- Take a valid function whose blocks stand between the entry and the exit, and whose calls are of
  -- functions of the program or of the standard library. The pass over it ends, with all its rounds and
  -- all its calls of itself, and returns such a function, which has the same statements in the same order
  -- but for some that are a NOP or a GOTO; if the pass says that it has changed something, there are
  -- fewer blocks, and otherwise no more.
  pub merge_basic_blocks_pass_lem :
      (f : Function D)
      → IsFramed c f
      → (g : Function D) × (o : Bool) × (merge_basic_blocks_pass c f ≡ some (g, o))
        × IsMerged f (one_if o) g
  unfolding merge_basic_blocks_pass
  merge_basic_blocks_pass_lem f v =
      let (g, o, done, r, _) = calls_lem (suc f.count) f v (omega arith) in (g, o, done, r)
