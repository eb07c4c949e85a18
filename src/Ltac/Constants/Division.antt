-- ===== src/Ltac/Constants/Division.antt =====
-- DIV writes two registers that it does not name, and constant propagation does not forget them.
use eddic.Prelude.{ℕ, ◌≡◌, ◌≢◌, refl, arith, true, false, Option, none, some, List, [], ◌∷◌}
use eddic.Mtac.Quadruple.{default}
use eddic.Ltac.Instruction.{Operator, Argument, Instruction, register, int}
use eddic.Ltac.Constants.{
  constant_propagation, propagate_block, erase_constant, collect, collect_mov, propagate,
  optimize_source, erase, insert,
}

abbrev pub of : Operator → ℕ → Option Argument → Instruction
of op r b = record { op = op; arg1 = some (register r); arg2 = b; arg3 = none; size = default }

-- MOV a, v; DIV s; MOV x, source
abbrev pub div_block : ℕ → ℕ → ℕ → ℕ → Argument → List Instruction
div_block a v s x source =
    of Operator.mov a (some (int v)) ∷ of Operator.div s none ∷ of Operator.mov x (some source) ∷ []

kept :
    (a v s x : ℕ) → a ≢ s → a ≢ x → erase x (erase s (insert a v (erase a (λ r. none)))) a ≡ some v
kept a v s x h k = ground arith

-- A register that was given a literal before a DIV by another register is still taken to hold the
-- literal after it, whichever register it is: a MOV from it to a third register becomes a MOV of the
-- literal.
pub constant_propagation-div :
    (a v s x : ℕ)
    → a ≢ s
    → a ≢ x
    → constant_propagation (div_block a v s x (register a)) false
      ≡ some (div_block a v s x (int v), true)
unfolding constant_propagation propagate_block erase_constant collect collect_mov propagate
    optimize_source
constant_propagation-div a v s x h k = rw (kept a v s x h k) refl
