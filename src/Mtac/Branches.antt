-- ===== src/Mtac/Branches.antt =====
-- src/mtac/BranchOptimizations.cpp: the branches on a literal. The state is the blocks with their edges,
-- the counter of the quadruples that are made, and `optimized`; `none` is the use of a null pointer or
-- of an empty optional.
pub mod Flow
pub mod Taken
pub mod Run
pub mod Lost
use eddic.Prelude.{
  ℕ, suc, Bool, true, false, Option, none, some, List, [], ◌∷◌, ◌==◌, if◌then◌else◌, ◌>>=◌,
}
use eddic.Mtac.Operator
use eddic.Mtac.Operator.{Operator, same}
use eddic.Mtac.Quadruple.{Quadruple, Argument, int, default, transform_to_nop}
use eddic.Mtac.Function.{Block, Function, first_index, remove_edge}
use eddic.Mtac.Function.Merge.{edit_statements}

pub record Branching (D : Type 0) : Type 0 where
  pub blocks : List (Block D)
  pub uid_counter : ℕ
  pub optimized : Bool

-- what is known of a branch: nothing, that it is taken, that it is not
pub data Decision : Type 0 where
  unknown taken not_taken : Decision

module _ {D : Type 0} where
  -- the literals 0 and 1, with what each says of the branch
  unfoldable pub decide : Decision → Decision → Option (Argument D) → Option Decision
  decide at_0 at_1 none = none
  decide at_0 at_1 (some (int value)) =
      some (if value == 0 then at_0 else if value == 1 then at_1 else unknown)
  decide at_0 at_1 (some _) = some unknown

  unfoldable pub decide_branch : Quadruple D → Option Decision
  unfolding decide Operator.position
  decide_branch q =
      if same q.op Operator.if_false_unary
      then decide taken not_taken q.arg1
      else if same q.op Operator.if_unary
      then decide not_taken taken q.arg1
      else some unknown

  -- mtac::Quadruple(label, GOTO), with the block of the branch
  abbrev pub goto_of : ℕ → Quadruple D → Quadruple D
  goto_of uid q = record {
    uid = uid;
    result = none;
    arg1 = none;
    arg2 = none;
    op = Operator.goto;
    size = default;
    secondary = none;
    m_function = none;
    m_param = q.m_param;
    block = q.block;
  }

  -- the branch that ends a block `p` is taken, or is not: `next` is the block behind it
  unfoldable pub decided :
      ℕ → Option ℕ → Quadruple D → Branching D → Decision → Option (Quadruple D × Branching D)
  unfolding remove_edge
  decided p next q s unknown = some (q, s)
  decided p next q s taken = next >>= λ n. some (
    goto_of (suc s.uid_counter) q,
    record s {
      blocks = remove_edge p n s.blocks;
      uid_counter = suc s.uid_counter;
      optimized = true;
    },
  )
  decided p next q s not_taken = q.block >>= λ b.
      some (transform_to_nop q, record s { blocks = remove_edge p b s.blocks; optimized = true })

  unfoldable pub optimize_branch :
      ℕ → Option ℕ → Quadruple D → Branching D → Option (Quadruple D × Branching D)
  unfolding decide_branch decided
  optimize_branch p next q s = decide_branch q >>= decided p next q s

  -- the loop over the statements of the block `p`
  unfoldable pub optimize_statements :
      ℕ → Option ℕ → List (Quadruple D) → Branching D → Option (List (Quadruple D) × Branching D)
  unfolding optimize_branch
  optimize_statements p next [] s = some ([], s)
  optimize_statements p next (q ∷ rest) s = do
    (q', s') ← optimize_branch p next q s
    (rest', s'') ← optimize_statements p next rest s'
    some (q' ∷ rest', s'')

  -- the loop over the blocks
  unfoldable pub optimize_blocks : List (Block D) → Branching D → Option (Branching D)
  unfolding optimize_statements edit_statements
  optimize_blocks [] s = some s
  optimize_blocks (b ∷ rest) s = do
    (statements, s') ← optimize_statements b.index (first_index rest) b.statements s
    optimize_blocks rest
        (record s' { blocks = edit_statements (λ _. statements) b.index s'.blocks })

  unfoldable pub optimize_branches : Function D → ℕ → Option (Function D × ℕ × Bool)
  unfolding optimize_blocks
  optimize_branches f uid_counter = do
    s ←
        optimize_blocks f.blocks
          (record { blocks = f.blocks; uid_counter = uid_counter; optimized = false })
    some (record f { blocks = s.blocks }, s.uid_counter, s.optimized)
