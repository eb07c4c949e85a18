-- ===== src/Mtac/Merging/Preserved.antt =====
-- src/mtac/merge_basic_blocks.cpp: the pass keeps the runs of a function.
use eddic.Prelude.{ℕ, suc, ◌≡◌, sym, ◌∙◌, arith, Bool, Option, some, ◌>>=◌, >>=-eq-some}
use mathlib.Core.Path.{subst}
use eddic.Word.{minus_one}
use eddic.Mtac.Quadruple.{Doubles, Quadruple}
use eddic.Mtac.Meaning.{Value, run}
use eddic.Mtac.Function.{Function}
use eddic.Mtac.Branches.Flow.{Flow, flow_of}
use eddic.Mtac.Merging.{Callees, merge_basic_blocks_pass}
use eddic.Mtac.Merging.Code.{shape}
use eddic.Mtac.Merging.Framed.{IsFramed}
use eddic.Mtac.Merging.Runs.{Runs, JumpsToBlock, flow_of-jumps}
use eddic.Mtac.Merging.Ends.{calls_lem}

module _ {D : Type 0} where
  -- The quadruples that have a meaning jump to their block.
  abbrev pub runs_alone : Doubles D → Quadruple D → (ℕ → Value D) → Option ((ℕ → Value D) × Flow)
  runs_alone d q env = run d env q >>= λ r. some (r.0, flow_of q.block r.1)

  pub runs_alone-JumpsToBlock : (d : Doubles D) → JumpsToBlock d (runs_alone d)
  runs_alone-JumpsToBlock d q env env' t h =
      let (r, e, f) = >>=-eq-some (run d env q) _ h in
      flow_of-jumps d (runs_alone d) q.block t r.1 (cc)

  -- Take a valid function whose blocks stand between the entry and the exit, and whose calls are of
  -- functions of the program or of the standard library, and let the statements that are no GOTO, no NOP
  -- and no branch on one argument do anything, but jump nowhere or to their block. A run of the function
  -- from its entry, which goes from block to block until it jumps to no block or leaves the last one, is
  -- one of the function that the pass returns: it starts with the same store and ends with the same one.
  pub merge_basic_blocks_pass-Runs :
      (c : Callees) (f g : Function D) (o : Bool) (d : Doubles D)
      (other : Quadruple D → (ℕ → Value D) → Option ((ℕ → Value D) × Flow))
      (env final : ℕ → Value D)
      → IsFramed c f
      → JumpsToBlock d other
      → merge_basic_blocks_pass c f ≡ some (g, o)
      → Runs d other (shape f.blocks) (some minus_one) env final
      → Runs d other (shape g.blocks) (some minus_one) env final
  unfolding merge_basic_blocks_pass
  merge_basic_blocks_pass-Runs c f g o d other env final v law h r =
      let (g', o', done, _, x) = calls_lem c (suc f.count) f v (omega arith) in
      let e : some (g', o') ≡ some (g, o) = sym done ∙ h in
      let same' : g' ≡ g = cc in
      subst (λ (k : Function D). Runs d other (shape k.blocks) (some minus_one) env final) same'
        (x d other law env final r)
