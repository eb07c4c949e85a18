-- ===== src/Checks/Merging.antt =====
-- A function of two blocks that no jump leads to, which become one.
use eddic.Prelude.{ℕ, ◌≡◌, ◌==◌, if◌then◌else◌, refl, arith, Bool, true, false, none, some, [], ◌∷◌}
use eddic.Word.{minus_one}
use eddic.Mtac.Operator
use eddic.Mtac.Operator.{Operator, is_if, is_if_false}
use eddic.Mtac.Quadruple.{Quadruple, int}
use eddic.Mtac.Function.{Function, build_control_flow_graph, minus_two}
use eddic.Mtac.Function.Merge.{block_of, merge_basic_blocks}
use eddic.Mtac.Function.Valid.{IsValid, unchanged, then_edit, built, Edits-IsValid}
use eddic.Mtac.Blocks.{extract}
use eddic.Mtac.Blocks.Extracted.{extract_lem}
use eddic.Mtac.Merging.{
  Callees, use_blocks, compute_block_usage, size_no_nop, starts_safely, merge_in, visit_empty,
  try_merge, visit_last, visit, moved, merge_round, merge_loop, merge_once, merge_calls,
  merge_basic_blocks_pass,
}
use eddic.Mtac.Merging.Steps.{one_if}
use eddic.Mtac.Merging.Ends.{IsMerged, merge_basic_blocks_pass_lem}
use eddic.Mtac.Meaning.{Value, integer, effect, unary_op}
use eddic.Mtac.Branches.Flow.{exec, exec_one, falls}
use eddic.Mtac.Merging.Code.{shape}
use eddic.Mtac.Merging.Runs.{Runs, left, through}
use eddic.Mtac.Merging.Preserved.{runs_alone, runs_alone-JumpsToBlock, merge_basic_blocks_pass-Runs}
use eddic.Mtac.Merging.Framed.{IsFramed}
use eddic.Checks.Blocks.{statement, names, zeros}
use eddic.Checks.Passes.{whole}

abbrev callees : Callees
callees = record { standard = λ f. false; mangled_name = names; pure = λ f. none }

abbrev first : Quadruple ℕ
first = statement Operator.assign (some 1) (some (int 5)) ""

abbrev second : Quadruple ℕ
second = statement Operator.assign (some 2) (some (int 6)) ""

abbrev cut : Function ℕ
cut = record {
  blocks =
      block_of minus_one
      ∷ record (block_of {D = ℕ} 1) { statements = first ∷ [] }
      ∷ record (block_of {D = ℕ} 2) { statements = second ∷ [] }
      ∷ block_of minus_two
      ∷ [];
  count = 4;
  index = 2;
}

abbrev linked : Function ℕ
linked = record cut {
  blocks =
      record (block_of {D = ℕ} minus_one) { successors = 1 ∷ [] }
      ∷ record (block_of {D = ℕ} 1) {
        statements = first ∷ [];
        successors = 2 ∷ [];
        predecessors = minus_one ∷ [];
      }
      ∷ record (block_of {D = ℕ} 2) {
        statements = second ∷ [];
        successors = minus_two ∷ [];
        predecessors = 1 ∷ [];
      }
      ∷ record (block_of {D = ℕ} minus_two) { predecessors = 2 ∷ [] }
      ∷ [];
}

abbrev merged : Function ℕ
merged = record linked {
  blocks =
      record (block_of {D = ℕ} minus_one) { successors = 1 ∷ [] }
      ∷ record (block_of {D = ℕ} 1) {
        statements = first ∷ second ∷ [];
        successors = minus_two ∷ [];
        predecessors = minus_one ∷ [];
      }
      ∷ record (block_of {D = ℕ} minus_two) { predecessors = 1 ∷ [] }
      ∷ [];
  count = 3;
}

cut_run : extract names (first ∷ statement Operator.label none none "L" ∷ second ∷ []) ≡ some cut
unfolding extract
cut_run = refl

linked_run : build_control_flow_graph cut ≡ some linked
unfolding build_control_flow_graph
linked_run = refl

linked-IsValid : IsValid linked
linked-IsValid =
    Edits-IsValid cut linked (extract_lem names _ cut (omega arith) cut_run).0
      (then_edit unchanged (built linked_run))

linked-IsFramed : IsFramed callees linked
unfolding Operator.position
linked-IsFramed = record { valid = linked-IsValid; head = refl; last = refl; known = refl }

merged_run : merge_basic_blocks_pass callees linked ≡ some (merged, true)
unfolding merge_basic_blocks_pass merge_calls merge_once merge_loop merge_round visit visit_last
    visit_empty try_merge merge_in starts_safely size_no_nop compute_block_usage use_blocks moved
    merge_basic_blocks
merged_run = refl

merge_basic_blocks_pass_example :
    (g : Function ℕ) × (o : Bool) × (merge_basic_blocks_pass callees linked ≡ some (g, o))
    × IsMerged callees linked (one_if o) g
unfolding Operator.position
merge_basic_blocks_pass_example = merge_basic_blocks_pass_lem callees linked linked-IsFramed

-- x1 is 5, and x2 is 6
abbrev after_one : ℕ → Value ℕ
after_one y = if y == 1 then integer 5 else integer 0

abbrev after_two : ℕ → Value ℕ
after_two y = if y == 2 then integer 6 else after_one y

linked-Runs : Runs whole (runs_alone whole) (shape linked.blocks) (some minus_one) zeros after_two
unfolding exec exec_one effect unary_op Operator.position
linked-Runs = through {flow = falls} refl (
    through {env' = after_one} {flow = falls} refl
      (through {env' = after_two} {flow = falls} refl (through {flow = falls} refl left)))

merge_basic_blocks_pass-Runs_example :
    Runs whole (runs_alone whole) (shape merged.blocks) (some minus_one) zeros after_two
merge_basic_blocks_pass-Runs_example =
    merge_basic_blocks_pass-Runs callees linked merged true whole (runs_alone whole) zeros after_two
      linked-IsFramed (runs_alone-JumpsToBlock whole) merged_run linked-Runs
