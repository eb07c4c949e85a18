-- ===== src/Checks/Blocks.antt =====
-- A function of five statements, two blocks: the first ends in a branch on 1 to the second.
use Prim.Native.String.{String}
use eddic.Prelude.{
  ℕ, ◌≡◌, ◌↔◌, refl, arith, Bool, true, false, Option, none, some, List, [], ◌∷◌, map,
}
use eddic.Word.{minus_one}
use eddic.Mtac.Operator
use eddic.Mtac.Operator.{Operator, is_if, is_if_false, same}
use eddic.Mtac.Quadruple.{Argument, Quadruple, int, default}
use eddic.Mtac.Meaning.{Value, integer, unary_op}
use eddic.Mtac.CallGraph.{Edge}
use eddic.Mtac.Function.{
  Block, Function, build_control_flow_graph, back, next_of, minus_two, next_of,
}
use eddic.Mtac.Function.Edges.{has, out}
use eddic.Mtac.Function.Merge.{block_of}
use eddic.Mtac.Function.Valid.{IsValid, unchanged, then_edit, built, Edits-IsValid}
use eddic.Mtac.Blocks.{Labels, extract, bind_label}
use eddic.Mtac.Blocks.Cut.{any_early, flat}
use eddic.Mtac.Blocks.Loop.{unlabelled}
use eddic.Mtac.Blocks.Extracted.{extract_lem}
use eddic.Mtac.Branches.{optimize_branches, goto_of, decide_branch, taken}
use eddic.Mtac.Branches.Flow.{Flow, falls, jumps, exec, statements_of}
use eddic.Mtac.Branches.Run.{optimize_branches_lem}
use eddic.Mtac.Branches.Lost.{optimize_branches-lost}
use eddic.Mtac.DeadBlocks.{remove_dead_basic_blocks}
use eddic.Mtac.DeadBlocks.Reached.{IsReached}
use eddic.Mtac.DeadBlocks.First.{IsReady}
use eddic.Mtac.DeadBlocks.Kept.{remove_dead_basic_blocks_iff}
use eddic.Checks.Passes.{whole}

abbrev pub statement : Operator → Option ℕ → Option (Argument ℕ) → String → Quadruple ℕ
statement op result a label = record {
  uid = 1;
  result = result;
  arg1 = a;
  arg2 = none;
  op = op;
  size = default;
  secondary = none;
  m_function = none;
  m_param = label;
  block = none;
}

abbrev statements : List (Quadruple ℕ)
statements =
    statement Operator.assign (some 1) (some (int 5)) ""
    ∷ statement Operator.if_unary none (some (int 1)) "L"
    ∷ statement Operator.label none none "L"
    ∷ statement Operator.assign (some 2) (some (int 6)) ""
    ∷ []

abbrev pub names : ℕ → String
names f = "_F1f"

abbrev branch : Quadruple ℕ
branch = record (statement Operator.if_unary none (some (int 1)) "L") { block = some 2 }

abbrev one : Block ℕ
one = record {
  index = 1;
  statements = statement Operator.assign (some 1) (some (int 5)) "" ∷ branch ∷ [];
  successors = [];
  predecessors = [];
}

abbrev two : Block ℕ
two = record {
  index = 2;
  statements = statement Operator.assign (some 2) (some (int 6)) "" ∷ [];
  successors = [];
  predecessors = [];
}

abbrev cut : Function ℕ
cut = record {
  blocks = block_of minus_one ∷ one ∷ two ∷ block_of minus_two ∷ [];
  count = 4;
  index = 2;
}

abbrev linked : Function ℕ
linked = record {
  blocks =
      record (block_of {D = ℕ} minus_one) { successors = 1 ∷ [] }
      ∷ record one { successors = 2 ∷ 2 ∷ []; predecessors = minus_one ∷ [] }
      ∷ record two { successors = minus_two ∷ []; predecessors = 1 ∷ 1 ∷ [] }
      ∷ record (block_of {D = ℕ} minus_two) { predecessors = 2 ∷ [] }
      ∷ [];
  count = 4;
  index = 2;
}

cut_run : extract names statements ≡ some cut
unfolding extract
cut_run = refl

linked_run : build_control_flow_graph cut ≡ some linked
unfolding build_control_flow_graph
linked_run = refl

extract_lem_example :
    IsValid cut
    × (any_early cut.blocks ≡ false)
    × ((labels : Labels) × (flat cut.blocks ≡ map (bind_label labels) (unlabelled statements)))
extract_lem_example = extract_lem names statements cut (omega arith) cut_run

Edits-IsValid_example : IsValid linked
Edits-IsValid_example =
    Edits-IsValid cut linked extract_lem_example.0 (then_edit unchanged (built linked_run))

-- What the other statements do: an assignment of an integer falls through.
abbrev assigns : Quadruple ℕ → (ℕ → Value ℕ) → Option ((ℕ → Value ℕ) × Flow)
assigns q env = some ((λ y. integer 5), falls)

abbrev pub zeros : ℕ → Value ℕ
zeros x = integer 0

jump_run : exec whole assigns one.statements zeros ≡ some ((λ y. integer 5), jumps (some 2))
unfolding exec Operator.position unary_op
jump_run = refl

optimize_branches_lem_example :
    (g : Function ℕ) × (n : ℕ) × (o : Bool) × (optimize_branches linked 9 ≡ some (g, n, o))
    × (exec whole assigns (statements_of g.blocks 1) zeros
        ≡ some ((λ y. integer 5), jumps (some 2)))
unfolding Operator.position
optimize_branches_lem_example =
    optimize_branches_lem whole assigns linked 9 1 zeros ((λ y. integer 5), jumps (some 2))
      Edits-IsValid_example.distinct refl refl jump_run

abbrev rewritten : Function ℕ
rewritten = record linked {
  blocks =
      record (block_of {D = ℕ} minus_one) { successors = 1 ∷ [] }
      ∷ record one {
        statements = statement Operator.assign (some 1) (some (int 5)) "" ∷ goto_of 10 branch ∷ [];
        predecessors = minus_one ∷ [];
      }
      ∷ record two { successors = minus_two ∷ [] }
      ∷ record (block_of {D = ℕ} minus_two) { predecessors = 2 ∷ [] }
      ∷ [];
}

rewritten_run : optimize_branches linked 9 ≡ some (rewritten, 10, true)
unfolding optimize_branches
rewritten_run = refl

branch-taken : decide_branch branch ≡ some taken
unfolding decide_branch
branch-taken = refl

two_next : next_of linked.blocks 1 ≡ some 2
unfolding next_of
two_next = refl

optimize_branches-lost_example :
    (out rewritten.blocks 1 2 ≡ 0)
    × ((j : Quadruple ℕ) × (back (statements_of rewritten.blocks 1) ≡ some j)
        × (same j.op Operator.goto ≡ true)
        × (j.block ≡ some 2))
optimize_branches-lost_example =
    optimize_branches-lost linked rewritten 9 1 2 10 true branch Edits-IsValid_example.distinct refl
      refl branch-taken refl two_next rewritten_run

linked-IsReady : IsReady 7 [] linked
unfolding Operator.position
linked-IsReady = record { valid = Edits-IsValid_example; head = refl; last = refl; known = refl }

remove_dead_basic_blocks_iff_example :
    (g : Function ℕ) × (es : List Edge) × (o : Bool) × (remove_dead_basic_blocks 7 linked []
      ≡ some (g, es, o))
    × ((has g.blocks 2 ≡ true) ↔ IsReached linked.blocks 2)
remove_dead_basic_blocks_iff_example = remove_dead_basic_blocks_iff 7 [] linked 2 linked-IsReady

-- After the branch was rewritten the second block is taken for dead, though the GOTO leads to it.
jump_lost :
    (g : Function ℕ) × (remove_dead_basic_blocks 7 rewritten [] ≡ some (g, [], true))
    × (has g.blocks 2 ≡ false)
unfolding remove_dead_basic_blocks
jump_lost = (_, refl, refl)
