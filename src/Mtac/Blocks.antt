-- ===== src/Mtac/Blocks.antt =====
-- src/mtac/BasicBlockExtractor.cpp, and `safe` of src/mtac/Utils.cpp: the statements of a function are
-- cut into basic blocks. The table of the mangled names of functions is an argument.
pub mod Cut
pub mod Loop
pub mod Extracted
use Prim.Native.String.{String}
use package.text.Mathlib.Text.{◌==◌ as str_eq}
use mathlib.Core.Bool.{not}
use eddic.Prelude.{
  ℕ, Bool, true, false, ◌||◌, Option, none, some, List, [], ◌∷◌, ◌++◌, if◌then◌else◌, ◌>>=◌, map,
}
use eddic.Mtac.Operator
use eddic.Mtac.Operator.{is_if, is_if_false, same}
use eddic.Mtac.Quadruple.{Quadruple}
use eddic.Mtac.Function.{Block, Function}
use eddic.Mtac.Function.Merge.{no_blocks, create_entry_bb, create_exit_bb, append_bb}

abbrev pub safe : String → Bool
safe function = str_eq function "_F5printS" || str_eq function "_F5printC"

-- std::unordered_map<std::string, std::shared_ptr<basic_block>>, the last entry of a label first;
-- operator[] gives a null pointer for a label that is missing
abbrev pub Labels : Type 0
Labels = List (String × ℕ)

pub lookup : String → Labels → Option ℕ
lookup label [] = none
lookup label ((l, b) ∷ rest) = if str_eq l label then some b else lookup label rest

pub record Extraction (D : Type 0) : Type 0 where
  pub function : Function D
  pub next_is_leader : Bool
  pub labels : Labels

module _ {D : Type 0} where
  -- whether the next quadruple starts a block
  abbrev pub ends_block : Quadruple D → Bool
  ends_block q =
      is_if q.op || is_if_false q.op || same q.op Operator.goto || same q.op Operator.return

  -- emplace_back to the last block of the list, which is never empty: the entry is made first
  unfoldable pub append_last : Quadruple D → List (Block D) → List (Block D)
  append_last q [] = []
  append_last q (b ∷ []) = record b { statements = b.statements ++ q ∷ [] } ∷ []
  append_last q (b ∷ c ∷ bs) = b ∷ append_last q (c ∷ bs)

  unfoldable pub start_block : Extraction D → Extraction D
  unfolding append_bb
  start_block e = record e { function = append_bb e.function; next_is_leader = false }

  -- a call of a function that is not safe starts a block
  unfoldable pub start_call : (ℕ → String) → Quadruple D → Extraction D → Option (Extraction D)
  unfolding start_block Operator.position
  start_call names q e =
      if same q.op Operator.call
      then (q.m_function >>= λ f. some (if safe (names f) then e else start_block e))
      else some e

  unfoldable pub start_leader : Extraction D → Extraction D
  unfolding start_block
  start_leader e = if e.next_is_leader then start_block e else e

  unfoldable pub emplace : Quadruple D → Extraction D → Extraction D
  unfolding append_last is_if is_if_false
  emplace q e = record e {
    function = record (e.function) { blocks = append_last q e.function.blocks };
    next_is_leader = if ends_block q then true else e.next_is_leader;
  }

  -- the block that append_bb has made is the one that the label names
  unfoldable pub start_label : Quadruple D → Extraction D → Extraction D
  unfolding start_block
  start_label q e = record (start_block e) {
    labels = (q.m_param, (start_block e).function.index) ∷ e.labels;
  }

  -- the body of the first loop
  unfoldable pub extract_statement :
      (ℕ → String) → Quadruple D → Extraction D → Option (Extraction D)
  unfolding start_call start_leader emplace start_label
  extract_statement names q e =
      if same q.op Operator.label
      then some (start_label q e)
      else start_call names q e >>= λ e'. some (emplace q (start_leader e'))

  unfoldable pub extract_loop :
      (ℕ → String) → List (Quadruple D) → Extraction D → Option (Extraction D)
  unfolding extract_statement
  extract_loop names [] e = some e
  extract_loop names (q ∷ rest) e = extract_statement names q e >>= extract_loop names rest

  -- the second loop: the label of a jump becomes a block
  unfoldable pub bind_label : Labels → Quadruple D → Quadruple D
  unfolding lookup is_if is_if_false Operator.position
  bind_label labels q =
      if same q.op Operator.goto || is_if q.op || is_if_false q.op
      then record q { block = lookup q.m_param labels }
      else q

  unfoldable pub bind_labels : Labels → List (Block D) → List (Block D)
  unfolding bind_label
  bind_labels labels [] = []
  bind_labels labels (b ∷ bs) =
      record b { statements = map (bind_label labels) b.statements } ∷ bind_labels labels bs

  abbrev pub first_state : Extraction D
  first_state = record { function = create_entry_bb no_blocks; next_is_leader = true; labels = [] }

  -- BasicBlockExtractor::extract of a function with these statements
  unfoldable pub extract : (ℕ → String) → List (Quadruple D) → Option (Function D)
  unfolding extract_loop bind_labels create_entry_bb create_exit_bb
  extract names statements = do
    e ← extract_loop names statements first_state
    some (create_exit_bb (record (e.function) { blocks = bind_labels e.labels e.function.blocks }))
