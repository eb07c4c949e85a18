-- ===== src/Mtac/Function.antt =====
-- The list of basic blocks of a function and its control flow graph: include/mtac/basic_block.hpp,
-- src/mtac/Function.cpp, src/mtac/ControlFlowGraph.cpp. A shared_ptr to a block is the block's index, a
-- number of its own in the function: new_bb counts up, and the entry and the exit have -1 and -2. The
-- pointers `prev` and `next` are the order of the list. `none` is the use of a null pointer, or a failed
-- assertion.
pub mod Edges
pub mod Loops
pub mod Linked
pub mod Removed
pub mod Merge
pub mod Merged
pub mod Inserted
pub mod Valid
use Prim.Native.Nat.{ℕ, suc, ◌+◌, ◌-◌}
use mathlib.Core.Bool.{not}
use eddic.Prelude.{
  Bool, true, false, ◌&&◌, ◌||◌, Option, none, some, List, [], ◌∷◌, ◌++◌, ◌==◌, contains, retain,
  if◌then◌else◌, ◌>>=◌, map,
}
use eddic.Word.{minus_one}
use eddic.Mtac.Operator
use eddic.Mtac.Operator.{Operator, is_if, is_if_false, same}
use eddic.Mtac.Quadruple.{Quadruple}

-- The index of the exit, -2.
abbrev pub minus_two : ℕ
minus_two = minus_one - 1

pub record Block (D : Type 0) : Type 0 where
  pub index : ℕ
  pub statements : List (Quadruple D)
  pub successors : List ℕ
  pub predecessors : List ℕ

-- `index` is that of the last block of new_bb. The first block is the entry, the last one the exit.
pub record Function (D : Type 0) : Type 0 where
  pub blocks : List (Block D)
  pub count : ℕ
  pub index : ℕ

abbrev pub push_back : ℕ → List ℕ → List ℕ
push_back x xs = xs ++ x ∷ []

-- the erase-remove of every occurrence
abbrev pub erase_all : ℕ → List ℕ → List ℕ
erase_all x xs = retain (λ y. not (y == x)) xs

module _ {D : Type 0} where
  abbrev pub indexes : List (Block D) → List ℕ
  indexes [] = []
  indexes (b ∷ bs) = b.index ∷ indexes bs

  unfoldable pub find : List (Block D) → ℕ → Option (Block D)
  find [] p = none
  find (b ∷ bs) p = let rest = find bs p in if b.index == p then some b else rest

  -- block->next, the head of what follows
  abbrev pub first_index : List (Block D) → Option ℕ
  first_index [] = none
  first_index (b ∷ bs) = some b.index

  -- block->next of the block that `p` points to
  unfoldable pub next_of : List (Block D) → ℕ → Option ℕ
  next_of [] p = none
  next_of (b ∷ bs) p = let rest = next_of bs p in if b.index == p then first_index bs else rest

  -- block->prev; the first argument is the block before the list
  unfoldable pub prev_from : Option ℕ → List (Block D) → ℕ → Option ℕ
  prev_from before [] p = none
  prev_from before (b ∷ bs) p =
      let rest = prev_from (some b.index) bs p in if b.index == p then before else rest

  abbrev pub prev_of : List (Block D) → ℕ → Option ℕ
  prev_of = prev_from none

  -- a change of block->successors and of block->predecessors, through the pointer `p`
  unfoldable pub edit_successors : (List ℕ → List ℕ) → ℕ → List (Block D) → List (Block D)
  edit_successors g p [] = []
  edit_successors g p (b ∷ bs) =
      (if b.index == p then record b { successors = g b.successors } else b)
      ∷ edit_successors g p bs

  unfoldable pub edit_predecessors : (List ℕ → List ℕ) → ℕ → List (Block D) → List (Block D)
  edit_predecessors g p [] = []
  edit_predecessors g p (b ∷ bs) =
      (if b.index == p then record b { predecessors = g b.predecessors } else b)
      ∷ edit_predecessors g p bs

  unfoldable pub make_edge : ℕ → ℕ → List (Block D) → Option (List (Block D))
  unfolding edit_successors edit_predecessors
  make_edge from to bs =
      if contains (indexes bs) from && contains (indexes bs) to
      then some (edit_predecessors (push_back from) to (edit_successors (push_back to) from bs))
      else none

  unfoldable pub remove_edge : ℕ → ℕ → List (Block D) → List (Block D)
  unfolding edit_successors edit_predecessors
  remove_edge from to bs =
      edit_predecessors (erase_all from) to (edit_successors (erase_all to) from bs)

  -- make_edge to a pointer that may be null
  abbrev pub make_edge_to : ℕ → Option ℕ → List (Block D) → Option (List (Block D))
  make_edge_to from to bs = to >>= λ t. make_edge from t bs

  -- statements.back(), if there are any
  abbrev pub back : List (Quadruple D) → Option (Quadruple D)
  back [] = none
  back (q ∷ []) = some q
  back (q ∷ r ∷ rest) = back (r ∷ rest)

  unfoldable pub edges_of_last :
      ℕ → Option (Quadruple D) → Option ℕ → List (Block D) → Option (List (Block D))
  unfolding make_edge is_if is_if_false Operator.position
  edges_of_last from none next bs = make_edge_to from next bs
  edges_of_last from (some q) next bs =
      if same q.op Operator.goto
      then make_edge_to from q.block bs
      else if is_if q.op || is_if_false q.op
      then make_edge_to from q.block bs >>= make_edge_to from next
      else make_edge_to from next bs

  -- the body of the loop of build_control_flow_graph
  unfoldable pub edges_of : Block D → Option ℕ → List (Block D) → Option (List (Block D))
  unfolding edges_of_last
  edges_of b next bs =
      if b.index == minus_one
      then make_edge_to b.index next bs
      else if b.index == minus_two
      then some bs
      else edges_of_last b.index (back b.statements) next bs

  -- The loop: the blocks that are left, which give the next one, and the blocks with their edges.
  unfoldable pub build_edges : List (Block D) → List (Block D) → Option (List (Block D))
  unfolding edges_of
  build_edges [] bs = some bs
  build_edges (b ∷ rest) bs = edges_of b (first_index rest) bs >>= build_edges rest

  unfoldable pub build_control_flow_graph : Function D → Option (Function D)
  unfolding build_edges
  build_control_flow_graph f = do
    bs ← build_edges f.blocks f.blocks
    some (record f { blocks = bs })

  -- The loop of `remove` over the successors: each forgets the block as a predecessor.
  unfoldable pub forget_in_successors : ℕ → List ℕ → List (Block D) → Option (List (Block D))
  unfolding edit_predecessors
  forget_in_successors p [] bs = some bs
  forget_in_successors p (s ∷ rest) bs =
      let later = forget_in_successors p rest (edit_predecessors (erase_all p) s bs) in
      if contains (indexes bs) s then later else none

  -- The body of the loop over the predecessors; the fall through edge is redirected.
  unfoldable pub redirect : ℕ → ℕ → ℕ → ℕ → List (Block D) → Option (List (Block D))
  unfolding edit_successors make_edge
  redirect p prev next q bs =
      if contains (indexes bs) q
      then (if q == prev
          then make_edge q next (edit_successors (erase_all p) q bs)
          else some (edit_successors (erase_all p) q bs))
      else none

  unfoldable pub forget_in_predecessors :
      ℕ → ℕ → ℕ → List ℕ → List (Block D) → Option (List (Block D))
  unfolding redirect
  forget_in_predecessors p prev next [] bs = some bs
  forget_in_predecessors p prev next (q ∷ rest) bs =
      redirect p prev next q bs >>= forget_in_predecessors p prev next rest

  abbrev pub unlink : ℕ → List (Block D) → List (Block D)
  unlink p bs = retain (λ b. not (b.index == p)) bs

  unfoldable pub remove_block : ℕ → List (Block D) → Option (List (Block D))
  unfolding find next_of prev_from forget_in_successors forget_in_predecessors
  remove_block p bs = do
    next ← next_of bs p
    prev ← prev_of bs p
    block ← find bs p
    bs1 ← forget_in_successors p block.successors bs
    block1 ← find bs1 p
    bs2 ← forget_in_predecessors p prev next block1.predecessors bs1
    some (unlink p bs2)

  -- mtac::Function::remove. The iterator that it returns is always that past the end, since `next`
  -- is a reference to the field block->next, which it has cleared.
  unfoldable pub remove : ℕ → Function D → Option (Function D)
  unfolding remove_block
  remove p f = do bs ← remove_block p f.blocks; some (record f { blocks = bs; count = f.count - 1 })
