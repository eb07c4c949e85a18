-- ===== src/Ltac/Peephole.antt =====
-- src/ltac/PeepholeOptimizer.cpp: the rewrites of one instruction (optimize_statement).
pub mod Relate
mod Sums
mod Products
mod Addresses
pub mod Sound
use eddic.Prelude.{ℕ, Bool, true, false, Option, none, some, ◌==◌, if◌then◌else◌, ◌>>=◌}
use eddic.Word.{minus_one}
use eddic.Mtac.Strength.{is_power_of_two, power_of_two}
use eddic.Ltac.Instruction.{
  Operator, Argument, Instruction, AddressRegister, register, address, int, of_address_register,
  nop_of, scaled_address,
}

-- The instruction and the result of the function; `none` is an empty optional or the wrong
-- alternative of a variant.
abbrev pub Rewritten : Type 0
Rewritten = Option (Instruction × Bool)

abbrev kept : Instruction → Rewritten
kept i = some (i, false)

-- `to_inc` is the number for INC and `to_dec` that for DEC
unfoldable pub optimize_sum : ℕ → ℕ → Instruction → Option Argument → Option Argument → Rewritten
optimize_sum to_inc to_dec i none b = none
optimize_sum to_inc to_dec i (some (register r)) none = none
optimize_sum to_inc to_dec i (some (register r)) (some (int value)) =
    if value == 0
    then some (nop_of i, true)
    else if value == to_inc
    then some (record i { op = Operator.inc; arg2 = none }, true)
    else if value == to_dec
    then some (record i { op = Operator.dec; arg2 = none }, true)
    else kept i
optimize_sum to_inc to_dec i a b = kept i

unfoldable pub optimize_mov : Instruction → Option Argument → Option Argument → Rewritten
optimize_mov i none b = none
optimize_mov i (some (register r)) none = none
optimize_mov i (some (register r)) (some (int value)) =
    if value == 0 then some (record i { op = Operator.xor; arg2 = i.arg1 }, true) else kept i
optimize_mov i (some (register r)) (some (register t)) =
    if r == t then some (nop_of i, true) else kept i
optimize_mov i a b = kept i

abbrev to_lea : Instruction → ℕ → ℕ → Rewritten
to_lea i r scale =
    some (record i { op = Operator.lea; arg2 = some (address (scaled_address r r scale 0)) }, true)

unfoldable pub optimize_mul : Instruction → Option Argument → Option Argument → Rewritten
optimize_mul i none b = none
optimize_mul i (some (register r)) none = none
optimize_mul i (some (register r)) (some (int constant)) =
    if is_power_of_two constant
    then some
        (record i { op = Operator.shift_left; arg2 = some (int (power_of_two constant)) }, true)
    else if constant == 3
    then to_lea i r 2
    else if constant == 5
    then to_lea i r 4
    else if constant == 9
    then to_lea i r 8
    else kept i
optimize_mul i a b = kept i

unfoldable pub optimize_cmp : Instruction → Option Argument → Option Argument → Rewritten
optimize_cmp i none b = none
optimize_cmp i (some (register r)) none = none
optimize_cmp i (some (register r)) (some (int value)) =
    if value == 0 then some (record i { op = Operator.or; arg2 = i.arg1 }, true) else kept i
optimize_cmp i a b = kept i

abbrev to_mov : Instruction → AddressRegister → Rewritten
to_mov i base = some (record i { op = Operator.mov; arg2 = some (of_address_register base) }, true)

-- the base register, the scaled register and the displacement
unfoldable pub optimize_address :
    Instruction → Option AddressRegister → Option AddressRegister → Option ℕ → Rewritten
optimize_address i (some base) none none = to_mov i base
optimize_address i (some base) none (some n) = if n == 0 then to_mov i base else kept i
optimize_address i _ _ _ = kept i

unfoldable pub optimize_lea : Instruction → Option Argument → Rewritten
optimize_lea i (some (address a)) =
    optimize_address i a.base_register a.scaled_register a.displacement
optimize_lea i _ = none

-- The tests of optimize_statement follow one another, and each asks for an operator of its own: a
-- rewritten instruction is returned at once.
unfoldable pub optimize_operator : Operator → Instruction → Rewritten
optimize_operator Operator.add i = optimize_sum 1 minus_one i i.arg1 i.arg2
optimize_operator Operator.sub i = optimize_sum minus_one 1 i i.arg1 i.arg2
optimize_operator Operator.mov i = optimize_mov i i.arg1 i.arg2
optimize_operator Operator.mul2 i = optimize_mul i i.arg1 i.arg2
optimize_operator Operator.mul3 i = optimize_mul i i.arg1 i.arg2
optimize_operator Operator.cmp_int i = optimize_cmp i i.arg1 i.arg2
optimize_operator Operator.lea i = optimize_lea i i.arg2
optimize_operator _ i = kept i

unfoldable pub optimize_statement : Instruction → Rewritten
unfolding optimize_operator
optimize_statement i = optimize_operator i.op i
