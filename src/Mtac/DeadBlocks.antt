-- ===== src/Mtac/DeadBlocks.antt =====
-- src/mtac/remove_dead_basic_blocks.cpp. The state is the function, and the edges of the call graph, a
-- function of which is its number; the sets of blocks are lists. `none` is the use of a null pointer.
pub mod Live
pub mod Reached
pub mod Framed
pub mod First
pub mod Kept
use Prim.Native.Nat.{ℕ, zero, suc, ◌+◌, ◌-◌, ◌%◌, ◌^◌}
use eddic.Prelude.{
  Bool, true, false, ◌&&◌, ◌||◌, Option, none, some, List, [], ◌∷◌, ◌==◌, ltb, leb, contains,
  if◌then◌else◌, ◌>>=◌,
}
use eddic.Word.{is_negative}
use eddic.Mtac.Operator
use eddic.Mtac.Operator.{same}
use eddic.Mtac.Quadruple.{Quadruple}
use eddic.Mtac.Function.{Block, Function, remove}
use eddic.Mtac.CallGraph.{Edge}

-- whether one of the blocks is live
abbrev pub meets : List ℕ → List ℕ → Bool
meets live [] = false
meets live (p ∷ ps) = contains live p || meets live ps

-- `--program.cg.edge(source, target)->count`; the count is an std::size_t
unfoldable pub forget_call : ℕ → ℕ → List Edge → Option (List Edge)
forget_call source target [] = none
forget_call source target (e ∷ rest) =
    let later = forget_call source target rest >>= λ es. some (e ∷ es) in
    if e.source == source && e.target == target
    then some (record e { count = (e.count + 2 ^ 64 - 1) % 2 ^ 64 } ∷ rest)
    else later

module _ {D : Type 0} where
  -- a block that is negative, or has a predecessor among the live ones
  abbrev pub is_live : List ℕ → Block D → Bool
  is_live live b = is_negative b.index || meets live b.predecessors

  -- the loop that collects the live blocks
  unfoldable pub live_loop : List (Block D) → List ℕ → List ℕ
  live_loop [] live = live
  live_loop (b ∷ bs) live = live_loop bs (if is_live live b then b.index ∷ live else live)

  -- the first block that is not live
  unfoldable pub first_dead : List ℕ → List (Block D) → Option (Block D)
  first_dead live [] = none
  first_dead live (b ∷ bs) =
      let later = first_dead live bs in if contains live b.index then later else some b

  unfoldable pub forget_calls : ℕ → List (Quadruple D) → List Edge → Option (List Edge)
  unfolding forget_call Operator.position
  forget_calls source [] edges = some edges
  forget_calls source (q ∷ rest) edges =
      (if same q.op Operator.call
        then (q.m_function >>= λ f. forget_call source f edges)
        else some edges)
      >>= forget_calls source rest

  -- The second loop: the iterator that erase gives is past the end, so that it removes one block.
  unfoldable pub erase_dead :
      ℕ → Option (Block D) → Function D → List Edge → Option (Function D × List Edge)
  unfolding forget_calls remove
  erase_dead source none f edges = some (f, edges)
  erase_dead source (some b) f edges = do
    edges' ← forget_calls source b.statements edges
    f' ← remove b.index f
    some (f', edges')

  unfoldable pub sweep : ℕ → Function D → List Edge → Option (Function D × List Edge)
  unfolding live_loop first_dead erase_dead
  sweep source f edges = erase_dead source (first_dead (live_loop f.blocks []) f.blocks) f edges

  -- The outer loop, on fuel, with `optimized_once`.
  unfoldable pub remove_dead :
      ℕ → ℕ → Function D → List Edge → Bool → Option (Function D × List Edge × Bool)
  unfolding sweep
  remove_dead zero source f edges once = none
  remove_dead (suc fuel) source f edges once =
      let again = sweep source f edges >>= λ r.
      (let rest = remove_dead fuel source r.0 r.1 true in
        if ltb r.0.count f.count then rest else some (r.0, r.1, once)) in
      if leb f.count 2 then some (f, edges, once) else again

  -- Every round but the last removes a block.
  unfoldable pub remove_dead_basic_blocks :
      ℕ → Function D → List Edge → Option (Function D × List Edge × Bool)
  unfolding remove_dead
  remove_dead_basic_blocks source f edges = remove_dead (suc f.count) source f edges false
