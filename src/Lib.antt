-- ===== src/Lib.antt =====
-- eddic, a compiler for the EDDI language: a verification library of its core.
--
-- The program. The front end (src/parser_x3, src/ast) builds and checks a syntax tree; src/mtac
-- translates it to quadruples, the three-address code of the middle end, and optimises them;
-- src/ltac translates quadruples to low-level instructions of the processor, allocates registers and
-- runs a peephole optimiser; src/asm prints assembly. Types and the names of functions
-- (src/Type.cpp, src/mangling.cpp) and the two targets (src/Platform.cpp) are shared by all.
--
-- Mtac: quadruples and the passes that rewrite one quadruple.
--   Mtac.Operator, Mtac.Quadruple: include/mtac/Operator.hpp, Argument.hpp, Quadruple.hpp and
--     OptimizerUtils.hpp. A shared_ptr<Variable> is its number, and a double an element of a parameter,
--     the record Doubles, which holds the arithmetic of the host.
--   Mtac.Identities: src/mtac/ArithmeticIdentities.cpp. Mtac.Folding: src/mtac/ConstantFolding.cpp.
--   Mtac.Strength: src/mtac/ReduceInStrength.cpp, and isPowerOfTwo and powerOfTwo of src/Utils.cpp.
--     The loop of powerOfTwo runs on 31 rounds of fuel: a positive int is halved at most that often.
--   Mtac.MathPropagation: src/mtac/MathPropagation.cpp, both rounds; the round and the tables are the
--     state of the pass.
--   Mtac.CallGraph: src/mtac/call_graph.cpp and src/mtac/remove_unused_functions.cpp. A function is its
--     mangled name, a number. compute_reachable runs on two more rounds of fuel than the graph has edges:
--     a call inside a call adds a function. topological_order runs on any fuel: nothing bounds it.
--   Mtac.Function: src/mtac/Function.cpp, src/mtac/ControlFlowGraph.cpp and include/mtac/basic_block.hpp.
--     A shared_ptr to a block is the block's index, the pointers prev and next are the order of the list,
--     and the edges are kept at both ends, as in the source. Mtac.Function.Merge has the blocks that are
--     made, and merge_basic_blocks. Edits, of Mtac.Function.Valid, is any sequence of these operations.
--   Mtac.Blocks: src/mtac/BasicBlockExtractor.cpp. Mtac.DeadBlocks: src/mtac/remove_dead_basic_blocks.cpp,
--     whose outer loop runs on one more round of fuel than there are blocks: every round but the last
--     removes one. Mtac.Merging: src/mtac/merge_basic_blocks.cpp. Its loop runs on twice as many rounds as
--     there are blocks, and two more, since a round takes a block away and steps back, or steps forward;
--     it calls itself at most as often as there are blocks. Mtac.Branches: src/mtac/BranchOptimizations.cpp;
--     Mtac.Branches.Flow says what a block does, with the statements that are no jump as a parameter, and
--     Mtac.Merging.Runs how a function runs from block to block.
--   Mtac.Meaning: what a quadruple does to a store of variables, the specification of the passes.
--   A pass takes a quadruple and its flag `optimized` and returns both, in Option: `none` is the read
--   of an empty boost::optional, or a division that the processor answers by a trap.
--
-- Types: src/Type.cpp, include/BaseType.hpp and src/mangling.cpp. A std::string is the list of its
--   bytes, and a shared_ptr<const Type> a value of a data type. Types.Decimal is what the mangling uses
--   of streams; the digits of n are written on n + 1 rounds of fuel, and every round divides by 10.
--   Types.Unmangle is unmangle; its fuel is the length of the name, of which every call of
--   extract_type reads a letter. The sum of a position and a length wraps at 2 ^ 32; a name so long
--   that the position itself would is not modelled.
--
-- Platform: src/Platform.cpp.
--
-- Layout: src/Struct.cpp, the structures of src/GlobalContext.cpp, the sizes of src/Type.cpp and
--   compute_member of src/mtac/Utils.cpp. The structures are a list by their names. The recursion
--   of sizes through members, and the walk along the parents, run on fuel, since nothing in the source
--   bounds them: a structure may hold itself. The theorems hold for every amount on which they end.
--
-- Ltac: the low-level code.
--   Ltac.Instruction: include/ltac/Operator.hpp, Address.hpp, Argument.hpp and Instruction.hpp.
--   Ltac.Peephole: src/ltac/PeepholeOptimizer.cpp, the rewrites of one instruction. Its use of
--     powerOfTwo is that of Mtac.Strength. Ltac.Pairs: the rewrites of two instructions in the
--     same file, and the equality of addresses of src/ltac/Address.cpp. Ltac.Constants, Ltac.Copies:
--     constant_propagation and copy_propagation of the same file, on the instructions of one block.
--   Ltac.Allocation: src/ltac/register_allocator.cpp, include/ltac/interference_graph.hpp and
--     src/ltac/bit_matrix.cpp. Graph is the interference graph with its bit matrix and vectors;
--     Simplify and Select are simplify and select; Attempt composes them as register_allocation does in
--     a round that coalesces nothing. The loop of simplify runs on as many rounds as nodes are not
--     bound: each removes one. Spill is the spill code of a register in a block, with the number of a register cut to
--     16 bits as in the source, and Replace the replacement of the
--     allocated registers. The quotient of the spill heuristic, a double, is a parameter. The sets of
--     live registers, which the data flow framework computes, and the spill costs are arguments.
--   Ltac.Machine: registers, memory and flags, and what the rewritten instructions do to them; memory,
--     labels and the other instructions are a parameter, the record Target.
--
-- Word: int, of the compiler and of the 32-bit target, as its bit pattern below 2 ^ 32. Sums,
--   differences and products wrap around; where the source overflows a signed int, which C++ leaves
--   undefined, the model wraps too, as the generated code does.
-- Prelude: shared names, tests on numbers and lists. Checks: the theorems at concrete inputs.
--
-- Not modelled: the parser, the syntax tree and its passes; data flow, the loop optimisations and those
-- of the whole program but one; instruction selection; of register allocation the renumbering,
-- coalescing, liveness and spill costs; of the peephole optimiser the loop over the rewrites of one and
-- of two instructions, dead code and conditional moves; printing, files, options and the command line.
-- Doubles gives what the passes ask of a literal of a double, and no more. The fields of an instruction
-- that name what it uses and kills are left out, and with them update_uses of the register allocator,
-- which copies them.

pub mod Prelude
pub mod Word
pub mod Types
pub mod Platform
pub mod Layout
pub mod Mtac
pub mod Ltac
mod Checks
