-- ===== src/Mtac/Strength.antt =====
-- src/mtac/ReduceInStrength.cpp, and isPowerOfTwo and powerOfTwo of src/Utils.cpp.
pub mod Sound
pub mod Powers
pub mod Negative
use Prim.Native.Nat.{bit_and}
use eddic.Prelude.{
  ℕ, zero, suc, ◌-◌, ◌/◌, ◌+◌, Bool, ◌&&◌, Option, none, some, ltb, ◌==◌, if◌then◌else◌, ◌>>=◌,
}
use eddic.Word.{half}
use eddic.Mtac.Operator.{Operator}
use eddic.Mtac.Quadruple.{
  Doubles, Argument, Quadruple, eq_int, eq_double, replace_right_binary, int,
}
use eddic.Mtac.Identities.{Visited}

-- isPowerOfTwo: x > 0, as a signed number, and !(x & (x - 1))
unfoldable pub is_power_of_two : ℕ → Bool
is_power_of_two x = (ltb 0 x && ltb x half) && (bit_and x (x - 1) == 0)

-- powerOfTwo: the loop over (x, i), on fuel; a positive `int` is halved at most 31 times
unfoldable pub power_loop : ℕ → ℕ → ℕ → ℕ
power_loop zero x i = i
power_loop (suc fuel) x i =
    let rest = power_loop fuel (x / 2) (i + 1) in if ltb 1 x && ltb x half then rest else i

unfoldable pub power_of_two : ℕ → ℕ
unfolding power_loop
power_of_two x = power_loop 31 x 0

module _ {D : Type 0} (d : Doubles D) where
  reduce_mod : Quadruple D → Bool → Argument D → Visited d
  reduce_mod q o (int constant) =
      let masked = do a ← q.arg1; some (replace_right_binary q a Operator.and (int (constant - 1)))
      in if is_power_of_two constant then masked else some (q, o)
  reduce_mod q o b = some (q, o)

  reduce : Operator → Quadruple D → Bool → Visited d
  unfolding reduce_mod
  reduce Operator.modulo q o = q.arg2 >>= reduce_mod q o
  reduce Operator.mul q o = do
    a ← q.arg1
    b ← q.arg2
    if eq_int a 2
        then some (replace_right_binary q b Operator.add b)
        else if eq_int b 2
        then some (replace_right_binary q a Operator.add a)
        else some (q, o)
  reduce Operator.fmul q o = do
    a ← q.arg1
    b ← q.arg2
    if eq_double a 2
        then some (replace_right_binary q b Operator.fadd b)
        else if eq_double b 2
        then some (replace_right_binary q a Operator.fadd a)
        else some (q, o)
  reduce _ q o = some (q, o)

  unfoldable pub reduce_in_strength : Quadruple D → Bool → Visited d
  unfolding reduce
  reduce_in_strength q optimized = reduce q.op q optimized
