-- ===== src/Checks/Constants.antt =====
-- Constant and copy propagation over a block, on a target where the other instructions do nothing.
use eddic.Prelude.{ℕ, ◌≡◌, refl, sym, ap, true, false, Bool, none, some, List, [], ◌∷◌}
use mathlib.Core.Option.{some-injective}
use eddic.Ltac.Instruction.{Operator, Instruction, register, int}
use eddic.Ltac.Machine.{Machine, Target, run, run_operator, binary, move, put, put_result}
use eddic.Ltac.Constants.{
  constant_propagation, propagate_block, erase_constant, collect, collect_mov, propagate,
  optimize_source,
}
use eddic.Ltac.Constants.Sound.{run_block, run_block-constant_propagation}
use eddic.Word
use eddic.Platform.{x86_descriptor}
use eddic.Ltac.Copies.{copy_propagation}
use eddic.Ltac.Copies.Sound.{run_block-copy_propagation}
use eddic.Prelude.{arith}
use eddic.Ltac.Constants.Sound.{AreNarrow}
use eddic.Ltac.Constants.Writes.{IsNarrow}
use eddic.Ltac.Constants.Division.{constant_propagation-div, div_block, of}

abbrev target : Target ℕ
target = record { load = λ size memory n. 0; symbol = λ s. 0; other = λ i m. some m }

abbrev machine : Machine ℕ
machine = record { registers = λ r. 7; pseudo_registers = λ r. 0; memory = 0; flags = none }

-- r1 = 10; r2 = r1; r1 += 1; r3 = r1
abbrev block : List Instruction
block =
    of Operator.mov 1 (some (int 10))
    ∷ of Operator.mov 2 (some (register 1))
    ∷ of Operator.add 1 (some (int 1))
    ∷ of Operator.mov 3 (some (register 1))
    ∷ []

-- Only the first copy is of a known constant.
block_propagated :
    constant_propagation block false
    ≡ some (
      of Operator.mov 1 (some (int 10))
          ∷ of Operator.mov 2 (some (int 10))
          ∷ of Operator.add 1 (some (int 1))
          ∷ of Operator.mov 3 (some (register 1))
          ∷ [],
      true,
    )
unfolding constant_propagation propagate_block erase_constant collect collect_mov propagate
    optimize_source
block_propagated = refl

abbrev after : Machine ℕ
after = put 3 11 (put_result 1 11 (put 2 10 (put 1 10 machine)))

same : {m n : Machine ℕ} → some m ≡ some n → (r : ℕ) → n.registers r ≡ m.registers r
same {m} {n} h r = sym (ap (λ n. n.registers r) (some-injective m n h))

narrow : (i : Instruction) → IsNarrow target i
narrow i m n r h k = same h r

all_narrow : (is : List Instruction) → AreNarrow target is
all_narrow [] = tt
all_narrow (i ∷ is) = (narrow i, all_narrow is)

run-block : run_block target block machine ≡ some after
unfolding run_block run run_operator binary move Word.add
run-block = refl

run_block-constant_propagation_example :
    (p : List Instruction × Bool) × (constant_propagation block false ≡ some p)
    × (run_block target p.0 machine ≡ some after)
run_block-constant_propagation_example =
    run_block-constant_propagation target block false machine after (λ i s m h. refl)
      (all_narrow block) run-block

constant_propagation-div_example :
    constant_propagation (div_block 0 10 5 1 (register 0)) false
    ≡ some (div_block 0 10 5 1 (int 10), true)
constant_propagation-div_example =
    constant_propagation-div 0 10 5 1 (λ h. absurd (omega arith)) (λ h. absurd (omega arith))

-- r1 = 10; r2 = r1; r3 = r2; DIV r1; r4 = r2
abbrev copies : List Instruction
copies =
    of Operator.mov 1 (some (int 10))
    ∷ of Operator.mov 2 (some (register 1))
    ∷ of Operator.mov 3 (some (register 2))
    ∷ of Operator.div 1 none
    ∷ of Operator.mov 4 (some (register 2))
    ∷ []

abbrev after_copies : Machine ℕ
after_copies = put 4 10 (put 3 10 (put 2 10 (put 1 10 machine)))

run-copies : run_block target copies machine ≡ some after_copies
unfolding run_block run run_operator move
run-copies = refl

run_block-copy_propagation_example :
    (p : List Instruction × Bool) × (copy_propagation x86_descriptor copies false ≡ some p)
    × (run_block target p.0 machine ≡ some after_copies)
run_block-copy_propagation_example =
    run_block-copy_propagation target x86_descriptor copies false machine after_copies
      (λ i r s m h e. refl)
      (
        narrow (of Operator.mov 1 (some (int 10))),
        (
          narrow (of Operator.mov 2 (some (register 1))),
          (
            narrow (of Operator.mov 3 (some (register 2))),
            ((λ m n r h k j l. same h r), (narrow (of Operator.mov 4 (some (register 2))), tt)),
          ),
        ),
      )
      run-copies
