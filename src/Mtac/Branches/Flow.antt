-- ===== src/Mtac/Branches/Flow.antt =====
-- What a basic block does: its statements run one after another until one of them jumps. A statement
-- that is no GOTO, no NOP and no branch on one argument does what a parameter says.
use eddic.Prelude.{
  ℕ, Bool, true, false, ◌&&◌, ◌||◌, Option, none, some, List, [], ◌∷◌, ◌==◌, if◌then◌else◌, ◌>>=◌,
}
use eddic.Mtac.Operator
use eddic.Mtac.Operator.{same}
use eddic.Mtac.Quadruple.{Doubles, Quadruple}
use eddic.Mtac.Meaning.{Value, run}
use eddic.Mtac.Function.{Block, first_index}

pub data Flow : Type 0 where
  falls : Flow
  jumps : Option ℕ → Flow

abbrev pub flow_of : Option ℕ → Bool → Flow
flow_of target true = jumps target
flow_of target false = falls

abbrev pub is_some {ℓ} : {A : Type ℓ} → Option A → Bool
is_some none = false
is_some (some a) = true

module _ {D : Type 0} where
  abbrev pub is_unary_branch : Quadruple D → Bool
  is_unary_branch q = same q.op Operator.if_false_unary || same q.op Operator.if_unary

  abbrev pub go_on :
      ((ℕ → Value D) → Option ((ℕ → Value D) × Flow))
      → (ℕ → Value D)
      → Flow
      → Option ((ℕ → Value D) × Flow)
  go_on rest env falls = rest env
  go_on rest env (jumps t) = some (env, jumps t)

  module _ (d : Doubles D)
      (other : Quadruple D → (ℕ → Value D) → Option ((ℕ → Value D) × Flow)) where
    unfoldable pub exec_one : Quadruple D → (ℕ → Value D) → Option ((ℕ → Value D) × Flow)
    unfolding run
    exec_one q env =
        if same q.op Operator.goto
        then some (env, jumps q.block)
        else if is_unary_branch q || same q.op Operator.nop
        then (run d env q >>= λ r. some (r.0, flow_of q.block r.1))
        else other q env

    unfoldable pub exec : List (Quadruple D) → (ℕ → Value D) → Option ((ℕ → Value D) × Flow)
    unfolding exec_one
    exec [] env = some (env, falls)
    exec (q ∷ rest) env = exec_one q env >>= λ r. go_on (exec rest) r.0 r.1

  abbrev pub statements_of : List (Block D) → ℕ → List (Quadruple D)
  statements_of [] p = []
  statements_of (b ∷ bs) p = if b.index == p then b.statements else statements_of bs p

  -- A branch on one argument has the argument and a target, and its block one behind it.
  abbrev pub are_complete : Option ℕ → List (Quadruple D) → Bool
  are_complete next [] = true
  are_complete next (q ∷ rest) =
      (if is_unary_branch q then is_some q.arg1 && is_some q.block && is_some next else true)
      && are_complete next rest

  abbrev pub blocks_complete : List (Block D) → Bool
  blocks_complete [] = true
  blocks_complete (b ∷ rest) = are_complete (first_index rest) b.statements && blocks_complete rest
