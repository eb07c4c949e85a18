-- ===== src/Mtac/DeadBlocks/Kept.antt =====
-- src/mtac/remove_dead_basic_blocks.cpp: the pass ends, and keeps the blocks that are reached.
use Prim.Native.Nat.{◌-◌}
use eddic.Prelude.{
  false_ne, ℕ, zero, suc, ◌≤◌, ◌<◌, ◌≡◌, ◌↔◌, ◌⊎◌, refl, sym, ap, ◌∙◌, arith, Bool, true, false,
  some, List, [], ◌==◌, ltb, leb, contains, retain, length, if◌then◌else◌, Bool-cases, Option-cases,
  inl, inr, ◌>>=◌, contains-retain,
}
use eddic.Word.{minus_one, is_negative}
use eddic.Mtac.Operator.{same}
use eddic.Mtac.Function.{Block, Function, indexes, prev_of, remove, minus_two}
use eddic.Mtac.Function.Edges.{has, predecessors_of}
use eddic.Mtac.Function.Removed.{remove_block_lem}
use eddic.Mtac.Function.Valid.{length-indexes}
use eddic.Mtac.CallGraph.{Edge}
use eddic.Mtac.DeadBlocks.{
  live_loop, first_dead, erase_dead, sweep, remove_dead, remove_dead_basic_blocks,
}
use eddic.Mtac.DeadBlocks.Live.{
  live_of, live_of-retain, live_of-precedes, live_of-negative, live_loop-live_of,
}
use eddic.Mtac.DeadBlocks.Reached.{IsReached, live_loop_iff}
use eddic.Mtac.Function.Valid.{IsValid-of_removed, length-indexes}
use eddic.Mtac.DeadBlocks.Framed.{
  head_of, last_of, head_of-without, last_of-without, retain-without, count-eq-contains,
  calls_known, knows, calls_known-same, forget_calls_lem, prev_of_exists, next_of_exists,
  prev_of-precedes,
}
use eddic.Mtac.DeadBlocks.First.{
  IsFirst, IsReached-has, IsReady, all_blocks_mono, both_if, count_pred, first_dead-none,
  first_dead-some, length_pos, live_of_if, ltb_irrefl, not_special, two_indexes,
}

module _ {D : Type 0} (source : ℕ) (edges : List Edge) (f : Function D)
    (ok : IsReady source edges f) where
  abbrev bs : List (Block D)
  bs = f.blocks

  abbrev alive : List ℕ
  alive = live_loop f.blocks []

  alive-live_of : alive ≡ live_of (predecessors_of bs) (indexes bs) []
  alive-live_of = live_loop-live_of (predecessors_of bs) bs [] ok.valid.distinct (λ x m. refl)

  dead_plain : (p : ℕ) → has bs p ≡ true → contains alive p ≡ false → is_negative p ≡ false
  dead_plain p h n = elim (Bool-cases (is_negative p)) [
    | inl negative ↦
        let k = live_of-negative (predecessors_of bs) (indexes bs) [] p h negative in
        let e = ap (λ l. contains l p) alive-live_of in cc
    | inr plain ↦ plain
  ]

  -- The block before the first dead one is no predecessor of it.
  dead_apart :
      (b : Block D) (prev : ℕ)
      → IsFirst alive b bs
      → prev_of bs b.index ≡ some prev
      → contains (predecessors_of bs b.index) prev ≡ false
  dead_apart b prev r h = elim (Bool-cases (contains (predecessors_of bs b.index) prev)) [
    | inl edge ↦
        let before = prev_of-precedes b.index prev bs ok.valid.distinct h in
        let e = λ (x : ℕ). ap (λ l. contains l x) alive-live_of in
        let k =
          live_of-precedes (predecessors_of bs) (indexes bs) [] b.index prev ok.valid.distinct
            (sym (e prev) ∙ r.first_before prev before) before edge in
        absurd (false_ne (sym r.first_not_live ∙ e b.index ∙ k))
    | inr none' ↦ none'
  ]

  -- What a round does that removes a block.
  record IsRound (g : Function D) (es : List Edge) : Type 0 where
    round_ready : IsReady source es g
    round_live : live_loop g.blocks [] ≡ alive
    round_kept : retain (contains alive) (indexes g.blocks) ≡ retain (contains alive) (indexes bs)
    round_count : suc g.count ≡ f.count

  remove_dead_block :
      (b : Block D) (es : List Edge)
      → IsFirst alive b bs
      → ((s t : ℕ) → knows es s t ≡ knows edges s t)
      → (g : Function D) × (remove b.index f ≡ some g) × IsRound g es
  unfolding remove
  remove_dead_block b es r keep =
      let p = b.index in
      let plain = dead_plain p r.first_has r.first_not_live in
      let not_entry : (minus_one == p) ≡ false = not_special minus_one p refl plain in
      let not_exit : (minus_two == p) ≡ false = not_special minus_two p refl plain in
      let (prev, hp) = prev_of_exists minus_one p bs r.first_has ok.head not_entry in
      let (next, hn) = next_of_exists minus_two p bs r.first_has ok.last not_exit in
      let (cs, done, l, i, removed) =
        remove_block_lem p prev next bs ok.valid.distinct ok.valid.linked hp hn in
      let c = removed (dead_apart b prev r hp) in
      let valid = IsValid-of_removed f p cs ok.valid r.first_has i l in
      let same = λ (x y : ℕ) (hx : (x == p) ≡ false) (hy : (y == p) ≡ false).
        count-eq-contains y (predecessors_of cs x) (predecessors_of bs x)
          (c.removed_into y x hy hx) in
      let dead : contains (live_of (predecessors_of bs) (indexes bs) []) p ≡ false =
        sym (ap (λ l. contains l p) alive-live_of) ∙ r.first_not_live in
      (
        record f { blocks = cs; count = f.count - 1 },
        rw (done, ◌>>=◌) refl,
        record {
          round_ready = record {
            valid = valid;
            head = ap head_of i ∙ head_of-without p minus_one (indexes bs) ok.head not_entry;
            last = ap last_of i ∙ last_of-without p minus_two (indexes bs) ok.last not_exit;
            known =
                all_blocks_mono (calls_known source edges) (calls_known source es) cs
                  (λ qs k. calls_known-same source edges es qs keep k)
                  (c.removed_tests (calls_known source edges) ok.known);
          };
          round_live =
              live_loop-live_of (predecessors_of cs) cs [] valid.distinct (λ x m. refl)
              ∙ ap (λ is. live_of (predecessors_of cs) is []) i
              ∙ live_of-retain (predecessors_of bs) (predecessors_of cs) p (indexes bs) [] same dead
              ∙ sym alive-live_of;
          round_kept =
              ap (retain (contains alive)) i ∙ retain-without p (indexes bs) alive r.first_not_live;
          round_count =
              count_pred f.count (length bs) ok.valid.counted (length_pos bs p r.first_has);
        },
      )

  -- A round changes nothing, since every block is live, or it removes one.
  sweep_lem :
      ((sweep source f edges ≡ some (f, edges))
        × (retain (contains alive) (indexes bs) ≡ indexes bs))
      ⊎ ((g : Function D) × (es : List Edge) × (sweep source f edges ≡ some (g, es)) × IsRound g es)
  unfolding sweep erase_dead
  sweep_lem = elim (Option-cases (first_dead alive bs)) [
    | inl all ↦ inl (rw all refl, first_dead-none alive bs all)
    | inr (b, e) ↦
        let r = first_dead-some alive b bs ok.valid.distinct e in
        let (es, done, keep) =
          forget_calls_lem source b.statements edges
            (r.first_test (calls_known source edges) ok.known) in
        let (g, gone, round) = remove_dead_block b es r keep in
        inr (g, es, rw (e) (rw (done, ◌>>=◌) (rw (gone, ◌>>=◌) refl)), round)
  ]

module _ {D : Type 0} (source : ℕ) where
  two_blocks : (edges : List Edge) (f : Function D) → IsReady source edges f → 2 ≤ f.count
  two_blocks edges f ok = omega (
    arith,
    ok.valid.counted,
    length-indexes f.blocks,
    two_indexes (indexes f.blocks) ok.head ok.last,
  )

  remove_dead_lem :
      (fuel : ℕ) (edges : List Edge) (f : Function D) (once : Bool)
      → IsReady source edges f
      → f.count < fuel
      → (g : Function D) × (es : List Edge) × (o : Bool) × (remove_dead fuel source f edges once
          ≡ some (g, es, o))
        × (indexes g.blocks ≡ retain (contains (live_loop f.blocks [])) (indexes f.blocks))
  unfolding remove_dead
  remove_dead_lem zero edges f once ok h = absurd (omega arith)
  remove_dead_lem (suc fuel) edges f once ok h = elim (sweep_lem source edges f ok) [
    | inl (same, all) ↦ elim (Bool-cases (leb f.count 2)) [
      | inl few ↦ (f, edges, once, rw few refl, sym all)
      | inr many ↦ (f, edges, once, rw (many, same, ◌>>=◌) (rw (ltb_irrefl f.count) refl), sym all)
    ]
    | inr (g, es, swept, round) ↦
        let many : leb f.count 2 ≡ false =
          ground (arith, two_blocks es g round.round_ready, round.round_count) in
        let less : ltb g.count f.count ≡ true = ground (arith, round.round_count) in
        let (k, fs, o, done, e) =
          remove_dead_lem fuel es g true round.round_ready (omega (arith, round.round_count)) in
        (
          k,
          fs,
          o,
          rw (many, swept, ◌>>=◌) (rw less done),
          e ∙ ap (λ l. retain (contains l) (indexes g.blocks)) round.round_live ∙ round.round_kept,
        )
  ]

  -- If the blocks of a function are linked and stand between the entry and the exit, and the call graph
  -- has an edge for each of its calls, remove_dead_basic_blocks ends, and keeps those blocks that are
  -- special, or that a chain of edges reaches, each of which goes forward in the list of blocks.
  pub remove_dead_basic_blocks_iff :
      (edges : List Edge) (f : Function D) (x : ℕ)
      → IsReady source edges f
      → (g : Function D) × (es : List Edge) × (o : Bool) × (remove_dead_basic_blocks source f edges
          ≡ some (g, es, o))
        × ((has g.blocks x ≡ true) ↔ IsReached f.blocks x)
  unfolding remove_dead_basic_blocks
  remove_dead_basic_blocks_iff edges f x ok =
      let (g, es, o, done, e) = remove_dead_lem (suc f.count) edges f false ok (omega arith) in
      let (to, from) = live_loop_iff f.blocks x ok.valid.distinct in
      let i : has g.blocks x
          ≡ (if contains (live_loop f.blocks []) x then has f.blocks x else false) =
        ap (λ l. contains l x) e
        ∙ contains-retain (contains (live_loop f.blocks [])) (indexes f.blocks) x in
      (
        g,
        es,
        o,
        done,
        (
          λ m. to (live_of_if (contains (live_loop f.blocks []) x) (has f.blocks x) (sym i ∙ m)),
          λ r.
              i
              ∙ both_if (contains (live_loop f.blocks []) x) (has f.blocks x) (from r)
                  (IsReached-has f.blocks x r),
        ),
      )
