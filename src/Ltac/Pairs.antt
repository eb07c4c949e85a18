-- ===== src/Ltac/Pairs.antt =====
-- src/ltac/PeepholeOptimizer.cpp: multiple_statement_optimizations, the first of its two functions
-- that rewrite two instructions which follow one another; Ltac.Pairs.Second has the other. `none` is an
-- empty optional that the code dereferences.
pub mod Second
pub mod Sums
pub mod Moves
pub mod Addresses
pub mod Forward
pub mod Sound
use Prim.Native.Nat.{ℕ, zero, suc}
use Prim.Native.String.{String}
use package.text.Mathlib.Text.{◌==◌ as str_eq}
use mathlib.Core.Bool.{not}
use eddic.Prelude.{
  Bool, true, false, ◌&&◌, ◌||◌, Option, none, some, List, [], ◌∷◌, ◌==◌, contains, if◌then◌else◌,
  ◌>>=◌,
}
use eddic.Word
use eddic.Mtac.Quadruple.{Size, default}
use eddic.Platform.{PlatformDescriptor}
use eddic.Ltac.Instruction.{
  Operator, Argument, Instruction, Address, AddressRegister, base_hard, base_pseudo, base_float,
  base_pseudo_float, register, float_register, address, literal, int, nop_of,
}
use eddic.Ltac.Peephole.{optimize_statement}

-- ltac::SP
abbrev pub sp : ℕ
sp = 1000

abbrev pub eq_address_register : AddressRegister → AddressRegister → Bool
eq_address_register (base_hard r) (base_hard s) = r == s
eq_address_register (base_pseudo r) (base_pseudo s) = r == s
eq_address_register (base_pseudo_float r) (base_pseudo_float s) = r == s
eq_address_register (base_float r) (base_float s) = r == s
eq_address_register _ _ = false

-- compare of two optionals
abbrev pub compare_optional {ℓ} : {A : Type ℓ} → (A → A → Bool) → Option A → Option A → Bool
compare_optional eq none none = true
compare_optional eq (some a) (some b) = eq a b
compare_optional eq _ _ = false

-- operator== of addresses
unfoldable pub eq_address : Address → Address → Bool
eq_address a b =
    compare_optional eq_address_register a.base_register b.base_register
    && (compare_optional eq_address_register a.scaled_register b.scaled_register
        && (compare_optional ◌==◌ a.scale b.scale
            && (compare_optional ◌==◌ a.displacement b.displacement
                && compare_optional str_eq a.absolute b.absolute)))

-- ltac::Address(reg, displacement) and ltac::Address(absolute, displacement)
abbrev pub displaced : ℕ → ℕ → Address
displaced r n = record {
  base_register = some (base_hard r);
  scaled_register = none;
  scale = none;
  displacement = some n;
  absolute = none;
}

abbrev pub label_address : String → ℕ → Address
label_address s n = record {
  base_register = none;
  scaled_register = none;
  scale = none;
  displacement = some n;
  absolute = some s;
}

-- Both instructions, and the result of the function.
abbrev pub RewrittenPair : Type 0
RewrittenPair = Option (Instruction × Instruction × Bool)

abbrev pub kept_pair : Instruction → Instruction → RewrittenPair
kept_pair i1 i2 = some (i1, i2, false)

abbrev pub drop_second : Instruction → Instruction → RewrittenPair
drop_second i1 i2 = some (i1, nop_of i2, true)

-- The second instruction may be a NOP already.
abbrev pub drop_after_ret : Operator → Instruction → Instruction → RewrittenPair
drop_after_ret Operator.nop i1 i2 = kept_pair i1 i2
drop_after_ret _ i1 i2 = drop_second i1 i2

-- Two ADD, or two SUB, to one register; the arguments are i1.arg1, i2.arg1, i1.arg2 and i2.arg2.
unfoldable pub combine_sums :
    Instruction
    → Instruction
    → Option Argument
    → Option Argument
    → Option Argument
    → Option Argument
    → RewrittenPair
combine_sums i1 i2 none b1 a2 b2 = none
combine_sums i1 i2 (some (register r)) none a2 b2 = none
combine_sums i1 i2 (some (register r)) (some (register s)) none b2 = none
combine_sums i1 i2 (some (register r)) (some (register s)) (some (int n)) none = none
combine_sums i1 i2 (some (register r)) (some (register s)) (some (int n)) (some (int k)) =
    if r == s
    then some (record i1 { arg2 = some (int (Word.add n k)) }, nop_of i2, true)
    else kept_pair i1 i2
combine_sums i1 i2 a1 b1 a2 b2 = kept_pair i1 i2

-- The second MOV stores what the first has loaded, or loads what it has stored; the operands are
-- those of the memory, in i1 and in i2.
abbrev pub drop_same_address :
    Instruction → Instruction → Bool → Option Argument → Option Argument → RewrittenPair
drop_same_address i1 i2 same (some (address a)) (some (address b)) =
    if same && eq_address a b then drop_second i1 i2 else kept_pair i1 i2
drop_same_address i1 i2 same (some (address a)) none = if same then none else kept_pair i1 i2
drop_same_address i1 i2 same _ _ = kept_pair i1 i2

-- Two MOV; the arguments are those of i1 and those of i2.
unfoldable pub combine_movs :
    Instruction
    → Instruction
    → Option Argument
    → Option Argument
    → Option Argument
    → Option Argument
    → RewrittenPair
unfolding eq_address
combine_movs i1 i2 none a2 b1 b2 = none
combine_movs i1 i2 (some a1) none b1 b2 = none
combine_movs i1 i2 (some (register r)) (some (register s)) none b2 = none
combine_movs i1 i2 (some (register r)) (some (register s)) (some (register u)) none = none
combine_movs i1 i2 (some (register r)) (some (register s)) (some (register u)) (some (register v)) =
    if r == v && s == u then drop_second i1 i2 else kept_pair i1 i2
combine_movs i1 i2 (some (register r)) (some (register s)) (some b1) none = none
combine_movs i1 i2 (some (register r)) (some a2) b1 none = none
combine_movs i1 i2 (some (register r)) (some a2) b1 (some (register v)) =
    drop_same_address i1 i2 (r == v) (some a2) b1
combine_movs i1 i2 (some a1) (some (register s)) none b2 = none
combine_movs i1 i2 (some a1) (some (register s)) (some (register u)) b2 =
    drop_same_address i1 i2 (s == u) (some a1) b2
combine_movs i1 i2 a1 a2 b1 b2 = kept_pair i1 i2

abbrev pub lea_second : Instruction → Instruction → Address → RewrittenPair
lea_second i1 i2 a =
    some (nop_of i1, record i2 { op = Operator.lea; arg2 = some (address a) }, true)

-- A MOV and an ADD to one register; `same` says that it is one.
unfoldable pub combine_address :
    Instruction → Instruction → Bool → Option Argument → Option Argument → RewrittenPair
combine_address i1 i2 false a2 b2 = kept_pair i1 i2
combine_address i1 i2 true none b2 = none
combine_address i1 i2 true (some (register s)) (some (int n)) = lea_second i1 i2 (displaced s n)
combine_address i1 i2 true (some (register s)) none = none
combine_address i1 i2 true (some (literal s)) (some (int n)) = lea_second i1 i2 (label_address s n)
combine_address i1 i2 true (some (literal s)) none = none
combine_address i1 i2 true a2 b2 = kept_pair i1 i2

-- What follows if both first arguments are registers: the test takes whether they are the same.
abbrev pub on_registers :
    Instruction
    → Instruction
    → Option Argument
    → Option Argument
    → (Bool → RewrittenPair)
    → RewrittenPair
on_registers i1 i2 none b1 then_do = none
on_registers i1 i2 (some (register r)) none then_do = none
on_registers i1 i2 (some (register r)) (some (register s)) then_do = then_do (r == s)
on_registers i1 i2 a1 b1 then_do = kept_pair i1 i2

-- A POP and a PUSH of one register
abbrev pub pop_push : Instruction → Instruction → Bool → RewrittenPair
pop_push i1 i2 false = kept_pair i1 i2
pop_push i1 i2 true =
    some (record i1 { op = Operator.mov; arg2 = some (address (displaced sp 0)) }, nop_of i2, true)

abbrev pub push_pop : Instruction → Instruction → Bool → RewrittenPair
push_pop i1 i2 false = kept_pair i1 i2
push_pop i1 i2 true = some (nop_of i1, nop_of i2, true)

unfoldable pub optimize_operators : Operator → Operator → Instruction → Instruction → RewrittenPair
unfolding combine_sums combine_movs combine_address
optimize_operators Operator.ret o i1 i2 = drop_after_ret o i1 i2
optimize_operators Operator.leave Operator.leave i1 i2 = drop_second i1 i2
optimize_operators Operator.add Operator.add i1 i2 =
    combine_sums i1 i2 i1.arg1 i2.arg1 i1.arg2 i2.arg2
optimize_operators Operator.sub Operator.sub i1 i2 =
    combine_sums i1 i2 i1.arg1 i2.arg1 i1.arg2 i2.arg2
optimize_operators Operator.mov Operator.mov i1 i2 =
    combine_movs i1 i2 i1.arg1 i1.arg2 i2.arg1 i2.arg2
optimize_operators Operator.mov Operator.add i1 i2 =
    on_registers i1 i2 i1.arg1 i2.arg1 (λ same. combine_address i1 i2 same i1.arg2 i2.arg2)
optimize_operators Operator.pop Operator.push i1 i2 =
    on_registers i1 i2 i1.arg1 i2.arg1 (λ same. pop_push i1 i2 same)
optimize_operators Operator.push Operator.pop i1 i2 =
    on_registers i1 i2 i1.arg1 i2.arg1 (λ same. push_pop i1 i2 same)
optimize_operators _ _ i1 i2 = kept_pair i1 i2

unfoldable pub multiple_statement_optimizations : Instruction → Instruction → RewrittenPair
unfolding optimize_operators
multiple_statement_optimizations i1 i2 = optimize_operators i1.op i2.op i1 i2
