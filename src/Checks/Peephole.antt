-- ===== src/Checks/Peephole.antt =====
-- The theorems of Ltac at a machine with no memory, where other instructions do nothing.
use eddic.Prelude.{ℕ, ◌≡◌, refl, arith, true, false, none, some}
use eddic.Word
use eddic.Mtac.Quadruple.{default}
use eddic.Ltac.Instruction.{Operator, Instruction, register, int}
use eddic.Ltac.Machine.{Machine, Target, run, run_operator, binary, IsWords, put_result}
use eddic.Ltac.Peephole.{optimize_statement}
use eddic.Ltac.Peephole.Relate.{RunsAs, KeptBy}
use eddic.Ltac.Peephole.Sound.{run-optimize_statement}

abbrev pub target : Target ℕ
target = record { load = λ size memory n. 0; symbol = λ s. 0; other = λ i m. some m }

abbrev pub machine : Machine ℕ
machine = record {
  registers = λ r. 7;
  pseudo_registers = λ r. 0;
  memory = 0;
  flags = some (record { zero = true; less = false; below = false });
}

machine-IsWords : IsWords machine
machine-IsWords r = (omega arith, omega arith)

abbrev multiply : Instruction
multiply = record {
  op = Operator.mul2;
  arg1 = some (register 3);
  arg2 = some (int 9);
  arg3 = none;
  size = default;
}

run-multiply : run target multiply machine ≡ some (put_result 3 63 machine)
unfolding run run_operator binary Word.mul
run-multiply = refl

run-optimize_statement_example :
    RunsAs target
      (KeptBy Operator.mul2)
      (optimize_statement multiply)
      machine
      (put_result 3 63 machine)
run-optimize_statement_example =
    run-optimize_statement target multiply machine (put_result 3 63 machine) machine-IsWords tt
      run-multiply
