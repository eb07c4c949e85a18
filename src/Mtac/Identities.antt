-- ===== src/Mtac/Identities.antt =====
-- src/mtac/ArithmeticIdentities.cpp. A pass gets a quadruple and its own flag `optimized`, and
-- returns both; `none` is the read of an empty optional.
mod Rules
mod Assign
pub mod Sound
pub mod Floats
use eddic.Prelude.{ℕ, Bool, Option, none, some, if◌then◌else◌, ◌>>=◌}
use eddic.Word.{minus_one}
use eddic.Mtac.Operator.{Operator}
use eddic.Mtac.Quadruple.{
  Doubles, Argument, Quadruple, eq_int, eq_double, eq_variable, eq_argument, replace_right,
  transform_to_nop, int, double,
}

module _ {D : Type 0} (d : Doubles D) where
  -- the type of a pass's step
  abbrev pub Visited : Type 0
  Visited = Option (Quadruple D × Bool)

  pub assign_identities : Quadruple D → Bool → Visited
  assign_identities q optimized = do
    a ← q.arg1
    if eq_variable a q.result then some (transform_to_nop q, optimized) else some (q, optimized)

  pub add_identities : Quadruple D → Bool → Visited
  add_identities q optimized = do
    a ← q.arg1
    b ← q.arg2
    if eq_int a 0
        then some (replace_right q b Operator.assign)
        else if eq_int b 0
        then some (replace_right q a Operator.assign)
        else some (q, optimized)

  pub sub_identities : Quadruple D → Bool → Visited
  sub_identities q optimized = do
    b ← q.arg2
    a ← q.arg1
    if eq_int b 0
        then some (replace_right q a Operator.assign)
        else if eq_argument d a b
        then some (replace_right q (int 0) Operator.assign)
        else if eq_int a 0
        then some (replace_right q b Operator.minus)
        else some (q, optimized)

  pub mul_identities : Quadruple D → Bool → Visited
  mul_identities q optimized = do
    a ← q.arg1
    b ← q.arg2
    if eq_int a 1
        then some (replace_right q b Operator.assign)
        else if eq_int b 1
        then some (replace_right q a Operator.assign)
        else if eq_int a 0
        then some (replace_right q (int 0) Operator.assign)
        else if eq_int b 0
        then some (replace_right q (int 0) Operator.assign)
        else if eq_int a minus_one
        then some (replace_right q b Operator.minus)
        else if eq_int b minus_one
        then some (replace_right q a Operator.minus)
        else some (q, optimized)

  pub div_identities : Quadruple D → Bool → Visited
  div_identities q optimized = do
    b ← q.arg2
    a ← q.arg1
    if eq_int b 1
        then some (replace_right q a Operator.assign)
        else if eq_int a 0
        then some (replace_right q (int 0) Operator.assign)
        else if eq_argument d a b
        then some (replace_right q (int 1) Operator.assign)
        else if eq_int b minus_one
        then some (replace_right q a Operator.minus)
        else some (q, optimized)

  pub fadd_identities : Quadruple D → Bool → Visited
  fadd_identities q optimized = do
    a ← q.arg1
    b ← q.arg2
    if eq_double a 0
        then some (replace_right q b Operator.fassign)
        else if eq_double b 0
        then some (replace_right q a Operator.fassign)
        else some (q, optimized)

  pub fsub_identities : Quadruple D → Bool → Visited
  fsub_identities q optimized = do
    b ← q.arg2
    a ← q.arg1
    if eq_double b 0
        then some (replace_right q a Operator.fassign)
        else if eq_argument d a b
        then some (replace_right q (double (d.literal 0)) Operator.fassign)
        else if eq_double a 0
        then some (replace_right q b Operator.fminus)
        else some (q, optimized)

  -- the test of `arg2` against 0 is written with an `int`
  pub fmul_identities : Quadruple D → Bool → Visited
  fmul_identities q optimized = do
    a ← q.arg1
    b ← q.arg2
    if eq_double a 1
        then some (replace_right q b Operator.fassign)
        else if eq_double b 1
        then some (replace_right q a Operator.fassign)
        else if eq_double a 0
        then some (replace_right q (double (d.literal 0)) Operator.fassign)
        else if eq_int b 0
        then some (replace_right q (double (d.literal 0)) Operator.fassign)
        else if eq_double a minus_one
        then some (replace_right q b Operator.fminus)
        else if eq_double b minus_one
        then some (replace_right q a Operator.fminus)
        else some (q, optimized)

  -- the last rewrite has the operator of integers
  pub fdiv_identities : Quadruple D → Bool → Visited
  fdiv_identities q optimized = do
    b ← q.arg2
    a ← q.arg1
    if eq_double b 1
        then some (replace_right q a Operator.fassign)
        else if eq_double a 0
        then some (replace_right q (double (d.literal 0)) Operator.fassign)
        else if eq_argument d a b
        then some (replace_right q (double (d.literal 1)) Operator.fassign)
        else if eq_double b minus_one
        then some (replace_right q a Operator.minus)
        else some (q, optimized)

  -- the `switch` on the operator
  select : Operator → Quadruple D → Bool → Visited
  select Operator.assign q o = assign_identities q o
  select Operator.passign q o = assign_identities q o
  select Operator.fassign q o = assign_identities q o
  select Operator.add q o = add_identities q o
  select Operator.sub q o = sub_identities q o
  select Operator.mul q o = mul_identities q o
  select Operator.div q o = div_identities q o
  select Operator.fadd q o = fadd_identities q o
  select Operator.fsub q o = fsub_identities q o
  select Operator.fmul q o = fmul_identities q o
  select Operator.fdiv q o = fdiv_identities q o
  select _ q o = some (q, o)

  unfoldable pub arithmetic_identities : Quadruple D → Bool → Visited
  unfolding select assign_identities add_identities sub_identities mul_identities div_identities
      fadd_identities fsub_identities fmul_identities fdiv_identities
  arithmetic_identities q optimized = select q.op q optimized
