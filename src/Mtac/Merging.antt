-- ===== src/Mtac/Merging.antt =====
-- src/mtac/merge_basic_blocks.cpp, and computeBlockUsage of src/mtac/Utils.cpp. The iterator is the
-- block that it points to, and `none` where it is past the end; its other pointer is always the block
-- before. `none` of a result is the use of a null pointer or of an empty optional, or a failed assertion.
pub mod Places
pub mod Code
pub mod Kept
pub mod Framed
pub mod Removes
pub mod Merges
pub mod Steps
pub mod Visits
pub mod Rounds
pub mod Runs
pub mod Lookups
pub mod Joins
pub mod Erased
pub mod Popped
pub mod Used
pub mod Refined
pub mod Ends
pub mod Preserved
use Prim.Native.String.{String}
use Prim.Native.Nat.{ℕ, zero, suc, ◌*◌}
use mathlib.Core.Bool.{not}
use eddic.Prelude.{
  Bool, true, false, ◌&&◌, ◌||◌, Option, none, some, List, [], ◌∷◌, ◌==◌, contains, if◌then◌else◌,
  ◌>>=◌,
}
use eddic.Word.{minus_one}
use eddic.Mtac.Operator
use eddic.Mtac.Operator.{is_if, is_if_false, same}
use eddic.Mtac.Quadruple.{Quadruple}
use eddic.Mtac.Blocks.{safe}
use eddic.Mtac.Function.{
  Block, Function, back, find, first_index, next_of, prev_from, prev_of, remove, minus_two,
}
use eddic.Mtac.Function.Merge.{edit_statements, merge_basic_blocks}

-- What the pass asks of the functions that are called: whether they are of the standard library, their
-- mangled names, and the flag `pure` of those that the program has.
pub record Callees : Type 0 where
  pub standard : ℕ → Bool
  pub mangled_name : ℕ → String
  pub pure : ℕ → Option Bool

-- comparison of two pointers
abbrev pub same_pointer : Option ℕ → Option ℕ → Bool
same_pointer none none = true
same_pointer (some p) (some q) = p == q
same_pointer _ _ = false

-- `next && next->index != -2 && usage.find(next) == usage.end()`
abbrev pub is_mergeable : List ℕ → Option ℕ → Bool
is_mergeable usage none = false
is_mergeable usage (some n) = not (n == minus_two) && not (contains usage n)

pub record Merging (D : Type 0) : Type 0 where
  pub function : Function D
  pub usage : List ℕ
  pub optimized : Bool

-- How the iterator goes on: `ended` is past the end.
pub data Move : Type 0 where
  forward back_again ended : Move

module _ {D : Type 0} where
  -- The null pointer that is inserted for most quadruples is never looked for.
  unfoldable pub use_blocks : List (Quadruple D) → List ℕ → List ℕ
  use_blocks [] usage = usage
  use_blocks (q ∷ rest) usage = use_blocks rest (elim q.block [ none ↦ usage | some p ↦ p ∷ usage ])

  unfoldable pub compute_block_usage : List (Block D) → List ℕ → List ℕ
  compute_block_usage [] usage = usage
  compute_block_usage (b ∷ bs) usage = compute_block_usage bs (use_blocks b.statements usage)

  unfoldable pub size_no_nop : List (Quadruple D) → ℕ
  unfolding Operator.position
  size_no_nop [] = 0
  size_no_nop (q ∷ rest) =
      if same q.op Operator.nop then size_no_nop rest else suc (size_no_nop rest)

  abbrev pub pop_back : List (Quadruple D) → List (Quadruple D)
  pop_back [] = []
  pop_back (q ∷ []) = []
  pop_back (q ∷ r ∷ rest) = q ∷ pop_back (r ∷ rest)

  unfoldable pub is_safe_call : Callees → Quadruple D → Option Bool
  is_safe_call c q =
      q.m_function >>= λ f. if c.standard f then some (safe (c.mangled_name f)) else c.pure f

  -- whether the next block does not start by a call that is not safe
  unfoldable pub starts_safely : Callees → List (Quadruple D) → Option Bool
  unfolding Operator.position
  starts_safely c [] = some true
  starts_safely c (q ∷ rest) = if same q.op Operator.call then is_safe_call c q else some true

  -- it.merge_in(next) and --it
  unfoldable pub merge_in : ℕ → Option ℕ → Merging D → Option (Merging D × Move)
  merge_in p next s = do
    n ← next
    f ← merge_basic_blocks n p s.function
    some (record s { function = f; optimized = true }, back_again)

  -- it.erase() and --it: the iterator that `remove` gives is past the end, and stays there
  unfoldable pub erase_block : ℕ → Merging D → Option (Merging D × Move)
  erase_block p s = do
    f ← remove p s.function
    some (record s { function = f; optimized = true }, ended)

  -- A block with nothing but NOP.
  unfoldable pub visit_empty : ℕ → Option ℕ → Merging D → Option (Merging D × Move)
  visit_empty p next s =
      if contains s.usage p
      then (if is_mergeable s.usage next then merge_in p next s else some (s, forward))
      else erase_block p s

  -- The block may be merged with the next one, if `merge` holds.
  unfoldable pub try_merge : Callees → ℕ → Option ℕ → Merging D → Bool → Option (Merging D × Move)
  try_merge c p next s merge =
      if merge && is_mergeable s.usage next
      then (next >>= λ n. find s.function.blocks n >>= λ b.
          starts_safely c b.statements >>= λ safely.
          if safely then merge_in p next s else some (s, forward))
      else some (s, forward)

  -- The GOTO to the next block is dropped.
  unfoldable pub drop_goto : ℕ → Merging D → Merging D
  drop_goto p s =
      let blocks = edit_statements pop_back p s.function.blocks in
      record s {
        function = record (s.function) { blocks = blocks };
        usage = compute_block_usage blocks s.usage;
      }

  unfoldable pub visit_last :
      Callees → ℕ → Quadruple D → Option ℕ → Merging D → Option (Merging D × Move)
  unfolding is_if is_if_false Operator.position
  visit_last c p q next s =
      if same q.op Operator.goto
      then (if same_pointer q.block next
          then try_merge c p next (drop_goto p s) true
          else try_merge c p next s false)
      else if same q.op Operator.call
      then is_safe_call c q >>= try_merge c p next s
      else try_merge c p next s (not (is_if q.op) && not (is_if_false q.op))

  unfoldable pub visit : Callees → Block D → Option ℕ → Merging D → Option (Merging D × Move)
  visit c b next s =
      if size_no_nop b.statements == 0
      then visit_empty b.index next s
      else back b.statements >>= λ q. visit_last c b.index q next s

  -- where the iterator stands after the visit of the block `p`
  unfoldable pub moved : ℕ → Merging D → Move → Option ℕ
  moved p s forward = next_of s.function.blocks p
  moved p s back_again = prev_of s.function.blocks p
  moved p s ended = none

  -- The body of the loop, and `none` where it breaks.
  unfoldable pub merge_round : Callees → Block D → Merging D → Option (Merging D × Option ℕ)
  merge_round c b s =
      if b.index == minus_one
      then some (s, next_of s.function.blocks b.index)
      else if b.index == minus_two
      then some (s, none)
      else visit c b (next_of s.function.blocks b.index) s >>= λ r.
          some (r.0, moved b.index r.0 r.1)

  unfoldable pub merge_loop : ℕ → Callees → Option ℕ → Merging D → Option (Merging D)
  merge_loop zero c at s = none
  merge_loop (suc fuel) c none s = some s
  merge_loop (suc fuel) c (some p) s =
      find s.function.blocks p >>= λ b. merge_round c b s >>= λ r. merge_loop fuel c r.1 r.0

  -- One call of the pass without the call of itself; it starts behind the entry.
  unfoldable pub merge_once : Callees → Function D → Option (Merging D)
  merge_once c f = do
    entry ← first_index f.blocks
    merge_loop (2 * suc f.count) c (next_of f.blocks entry)
        (record { function = f; usage = compute_block_usage f.blocks []; optimized = false })

  -- The calls of itself, on fuel: each but the last has removed a block.
  unfoldable pub merge_calls : ℕ → Callees → Function D → Option (Function D × Bool)
  merge_calls zero c f = none
  merge_calls (suc fuel) c f = merge_once c f >>= λ s.
      (let again = merge_calls fuel c s.function >>= λ r. some (r.0, true) in
        if s.optimized then again else some (s.function, false))

  unfoldable pub merge_basic_blocks_pass : Callees → Function D → Option (Function D × Bool)
  merge_basic_blocks_pass c f = merge_calls (suc f.count) c f
