-- ===== src/Checks/Pairs.antt =====
-- The theorem of Ltac.Pairs at a MOV and an ADD, which become a LEA, and a MOV that reads the source
-- of the one before it.
use eddic.Prelude.{◌≡◌, refl, arith, true, none, some}
use eddic.Word
use eddic.Mtac.Quadruple.{default}
use eddic.Ltac.Instruction.{Operator, Instruction, register, int, address, nop_of}
use eddic.Ltac.Machine.{run, run_operator, binary, move, put, put_result}
use eddic.Ltac.Pairs.{
  multiple_statement_optimizations, optimize_operators, combine_address, displaced,
}
use eddic.Platform.{intel_x86}
use eddic.Ltac.Pairs.Second.{
  multiple_statement_optimizations_second, forward_operators, forward_mov, possible, is_special,
  is_param,
}
use eddic.Ltac.Pairs.Sums.{run_pair, RunsAsPair}
use eddic.Ltac.Pairs.Sound.{multiple_statement_optimizations_lem}
use eddic.Checks.Peephole.{target, machine}

abbrev copy : Instruction
copy = record {
  op = Operator.mov;
  arg1 = some (register 3);
  arg2 = some (register 4);
  arg3 = none;
  size = default;
}

abbrev sum : Instruction
sum = record {
  op = Operator.add;
  arg1 = some (register 3);
  arg2 = some (int 5);
  arg3 = none;
  size = default;
}

pair_becomes_lea :
    multiple_statement_optimizations copy sum
    ≡ some
        (nop_of copy, record sum { op = Operator.lea; arg2 = some (address (displaced 4 5)) }, true)
unfolding multiple_statement_optimizations optimize_operators combine_address
pair_becomes_lea = refl

pair_runs : run_pair target copy sum machine ≡ some (put_result 3 12 (put 3 7 machine))
unfolding run run_operator binary move Word.add
pair_runs = refl

abbrev give : Instruction
give = record {
  op = Operator.mov;
  arg1 = some (register 2);
  arg2 = some (register 3);
  arg3 = none;
  size = default;
}

source_is_read :
    multiple_statement_optimizations_second intel_x86 copy give
    ≡ some (copy, record give { arg2 = some (register 4) }, true)
unfolding multiple_statement_optimizations_second forward_operators forward_mov possible is_special
    is_param
source_is_read = refl

multiple_statement_optimizations_example :
    RunsAsPair target
      (multiple_statement_optimizations copy sum)
      machine
      (put_result 3 12 (put 3 7 machine))
    × RunsAsPair target
        (multiple_statement_optimizations_second intel_x86 copy sum)
        machine
        (put_result 3 12 (put 3 7 machine))
multiple_statement_optimizations_example =
    multiple_statement_optimizations_lem target intel_x86 copy sum machine
      (put_result 3 12 (put 3 7 machine)) refl tt (omega arith) pair_runs
