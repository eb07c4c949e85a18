-- ===== src/Ltac/Pairs/Second.antt =====
-- src/ltac/PeepholeOptimizer.cpp: multiple_statement_optimizations_second. `none` is an empty optional
-- that the code dereferences, a boost::get of the wrong alternative, or a failed assertion.
use Prim.Native.Nat.{ℕ, zero, suc}
use mathlib.Core.Bool.{not}
use eddic.Prelude.{Bool, true, false, ◌&&◌, ◌||◌, Option, none, some, ◌==◌, if◌then◌else◌, ◌>>=◌}
use eddic.Mtac.Quadruple.{Size, default}
use eddic.Platform.{Platform, PlatformDescriptor, get_platform_descriptor}
use eddic.Ltac.Instruction.{
  Operator, Argument, Instruction, AddressRegister, base_hard, register, float_register, address,
}
use eddic.Ltac.Pairs.{RewrittenPair, kept_pair}

-- whether a part of an address is the register
abbrev pub is_same : Option AddressRegister → ℕ → Option Bool
is_same none r = some false
is_same (some (base_hard s)) r = some (s == r)
is_same (some _) r = none

-- `possible`: the first MOV may be read where the second one reads its register.
unfoldable pub possible : Size → Option Argument → ℕ → Option Bool
possible default none r = none
possible default (some (address a)) r = do
  base ← is_same a.base_register r
  scaled ← is_same a.scaled_register r
  some (not base && not scaled)
possible default (some a) r = some true
possible _ a r = some false

-- the loop over the registers of the parameters: the rounds that are left, and `i`
unfoldable pub is_param : PlatformDescriptor → ℕ → ℕ → ℕ → Option Bool
is_param descriptor reg zero i = some false
is_param descriptor reg (suc n) i =
    let rest = is_param descriptor reg n (suc i) in
    descriptor.int_param_register (suc i) >>= λ p. if reg == p then some true else rest

unfoldable pub is_special : PlatformDescriptor → ℕ → Option Bool
unfolding is_param
is_special descriptor reg =
    is_param descriptor reg descriptor.number_of_int_param_registers 0 >>= λ param.
    some
      (param || (reg == descriptor.int_return_register1 || reg == descriptor.int_return_register2))

abbrev pub copy_source : Instruction → Instruction → Option Argument → Bool → RewrittenPair
copy_source i1 i2 a2 special =
    if special then some (i1, record i2 { arg2 = a2 }, true) else kept_pair i1 i2

-- Two MOV, the second from a register
unfoldable pub forward_mov :
    PlatformDescriptor
    → Instruction
    → Instruction
    → Option Argument
    → Option Argument
    → Option Argument
    → Option Argument
    → RewrittenPair
unfolding possible is_special
forward_mov descriptor i1 i2 none a2 b1 b2 = none
forward_mov descriptor i1 i2 (some (register r)) a2 none b2 = none
forward_mov descriptor i1 i2 (some (register r)) a2 (some (register s)) none = none
forward_mov descriptor i1 i2 (some (register r)) a2 (some (register s)) (some (register u)) =
    possible i1.size a2 r >>= λ ok.
    if u == r && ok then is_special descriptor s >>= copy_source i1 i2 a2 else kept_pair i1 i2
forward_mov descriptor i1 i2 a1 a2 b1 b2 = kept_pair i1 i2

-- `valid`, of a MOV and a PUSH
abbrev pub valid : Argument → ℕ → Option Bool
valid (address a) r = is_same a.base_register r >>= λ base.
    if base then some false else (is_same a.scaled_register r >>= λ scaled. some (not scaled))
valid _ r = some true

abbrev pub push_source : Instruction → Instruction → Argument → Bool → RewrittenPair
push_source i1 i2 a ok =
    if ok then some (i1, record i2 { arg1 = some a }, true) else kept_pair i1 i2

unfoldable pub forward_push :
    Instruction → Instruction → Option Argument → Option Argument → Option Argument → RewrittenPair
forward_push i1 i2 none a2 b1 = none
forward_push i1 i2 (some (register r)) a2 none = none
forward_push i1 i2 (some (register r)) none (some (register s)) = none
forward_push i1 i2 (some (register r)) (some (float_register f)) (some (register s)) =
    kept_pair i1 i2
forward_push i1 i2 (some (register r)) (some a) (some (register s)) =
    if r == s then valid a r >>= push_source i1 i2 a else kept_pair i1 i2
forward_push i1 i2 a1 a2 b1 = kept_pair i1 i2

unfoldable pub forward_operators :
    Platform → Operator → Operator → Instruction → Instruction → RewrittenPair
unfolding forward_mov forward_push
forward_operators platform Operator.mov Operator.mov i1 i2 =
    forward_mov (get_platform_descriptor platform) i1 i2 i1.arg1 i1.arg2 i2.arg1 i2.arg2
forward_operators platform Operator.mov Operator.push i1 i2 =
    forward_push i1 i2 i1.arg1 i1.arg2 i2.arg1
forward_operators platform _ _ i1 i2 = kept_pair i1 i2

unfoldable pub multiple_statement_optimizations_second :
    Platform → Instruction → Instruction → RewrittenPair
unfolding forward_operators
multiple_statement_optimizations_second platform i1 i2 =
    forward_operators platform i1.op i2.op i1 i2
