-- ===== src/Mtac/Identities/Rules.antt =====
-- The laws of arithmetic behind each rewrite of ArithmeticIdentities, and the integer operators.
use eddic.Prelude.{ℕ, ◌≡◌, ◌⊎◌, arith, Bool, some}
use eddic.Word
use eddic.Word.Laws.{
  zero_add_lem, add_zero_lem, sub_zero_lem, sub_self, zero_sub_lem, one_mul_lem, mul_one_lem,
  minus_one_mul_lem, mul_minus_one_lem, div_one_lem, zero_div_lem, div_self, div_minus_one_lem,
  zero_mul_lem, mul_zero_lem, div_zero_lem, half_div_minus_one_lem,
}
use eddic.Mtac.Operator.{Operator}
use eddic.Mtac.Quadruple.{Doubles, Argument, Quadruple}
use eddic.Mtac.Meaning.{
  Value, integer, real, Effect, read, effect, IsWordValue, binary_op, unary_op,
}
use eddic.Mtac.Preserve.{quad, Keeps, eq_int-read, eq_argument-read}
use eddic.Mtac.Identities.{add_identities, sub_identities, mul_identities, div_identities}

module _ {D : Type 0} (d : Doubles D) (env : ℕ → Value D) where
  -- What a rewrite of each operator relies on, by the values of the two arguments.
  pub add_rules :
      (v w : Value D) (e : Effect D)
      → IsWordValue v
      → IsWordValue w
      → binary_op d Operator.add v w ≡ some e
      → (v ≡ integer 0 → unary_op d Operator.assign w ≡ some e)
        × (w ≡ integer 0 → unary_op d Operator.assign v ≡ some e)
  unfolding binary_op unary_op
  add_rules (integer m) (integer n) e hv hw h = ground (arith, zero_add_lem n, add_zero_lem m)
  add_rules v w e hv hw h = ground arith

  pub sub_rules :
      (v w : Value D) (e : Effect D)
      → IsWordValue v
      → IsWordValue w
      → binary_op d Operator.sub v w ≡ some e
      → (w ≡ integer 0 → unary_op d Operator.assign v ≡ some e)
        × ((v ≡ w) ⊎ ((x : D) × (v ≡ real x)) → unary_op d Operator.assign (integer 0) ≡ some e)
        × (v ≡ integer 0 → unary_op d Operator.minus w ≡ some e)
  unfolding binary_op unary_op
  sub_rules (integer m) (integer n) e hv hw h =
      ground (arith, sub_zero_lem m, sub_self m, zero_sub_lem n)
  sub_rules v w e hv hw h = ground arith

  pub mul_rules :
      (v w : Value D) (e : Effect D)
      → IsWordValue v
      → IsWordValue w
      → binary_op d Operator.mul v w ≡ some e
      → (v ≡ integer 1 → unary_op d Operator.assign w ≡ some e)
        × (w ≡ integer 1 → unary_op d Operator.assign v ≡ some e)
        × (v ≡ integer 0 → unary_op d Operator.assign (integer 0) ≡ some e)
        × (w ≡ integer 0 → unary_op d Operator.assign (integer 0) ≡ some e)
        × (v ≡ integer Word.minus_one → unary_op d Operator.minus w ≡ some e)
        × (w ≡ integer Word.minus_one → unary_op d Operator.minus v ≡ some e)
  unfolding binary_op unary_op
  mul_rules (integer m) (integer n) e hv hw h = ground (
    arith,
    one_mul_lem n,
    mul_one_lem m,
    zero_mul_lem n,
    mul_zero_lem m,
    minus_one_mul_lem n,
    mul_minus_one_lem m,
  )
  mul_rules v w e hv hw h = ground arith

  -- A division that ran had a divisor other than 0, and no quotient 2 ^ 31.
  pub div_rules :
      (v w : Value D) (e : Effect D)
      → IsWordValue v
      → IsWordValue w
      → binary_op d Operator.div v w ≡ some e
      → (w ≡ integer 1 → unary_op d Operator.assign v ≡ some e)
        × (v ≡ integer 0 → unary_op d Operator.assign (integer 0) ≡ some e)
        × ((v ≡ w) ⊎ ((x : D) × (v ≡ real x)) → unary_op d Operator.assign (integer 1) ≡ some e)
        × (w ≡ integer Word.minus_one → unary_op d Operator.minus v ≡ some e)
  unfolding binary_op unary_op
  div_rules (integer m) (integer n) e hv hw h = ground (
    arith,
    div_zero_lem m,
    div_one_lem m,
    zero_div_lem n,
    div_self m,
    div_minus_one_lem m,
    half_div_minus_one_lem,
  )
  div_rules v w e hv hw h = ground arith

  module _ (q : Quadruple D) (o : Bool) (a b : Argument D) (e : Effect D)
      (wa : IsWordValue (read env a)) (wb : IsWordValue (read env b)) where
    pub add-Keeps :
        binary_op d Operator.add (read env a) (read env b) ≡ some e
        → Keeps d env e q.result (add_identities d (quad q Operator.add (some a) (some b)) o)
    unfolding add_identities effect
    add-Keeps h =
        let rules = add_rules (read env a) (read env b) e wa wb h in
        ground (arith, eq_int-read d env a 0, eq_int-read d env b 0)

    pub sub-Keeps :
        binary_op d Operator.sub (read env a) (read env b) ≡ some e
        → Keeps d env e q.result (sub_identities d (quad q Operator.sub (some a) (some b)) o)
    unfolding sub_identities effect
    sub-Keeps h =
        let rules = sub_rules (read env a) (read env b) e wa wb h in
        ground (arith, eq_int-read d env a 0, eq_int-read d env b 0, eq_argument-read d env a b)

    pub mul-Keeps :
        binary_op d Operator.mul (read env a) (read env b) ≡ some e
        → Keeps d env e q.result (mul_identities d (quad q Operator.mul (some a) (some b)) o)
    unfolding mul_identities effect
    mul-Keeps h =
        let rules = mul_rules (read env a) (read env b) e wa wb h in
        ground (
          arith,
          eq_int-read d env a 0,
          eq_int-read d env b 0,
          eq_int-read d env a 1,
          eq_int-read d env b 1,
          eq_int-read d env a Word.minus_one,
          eq_int-read d env b Word.minus_one,
        )

    pub div-Keeps :
        binary_op d Operator.div (read env a) (read env b) ≡ some e
        → Keeps d env e q.result (div_identities d (quad q Operator.div (some a) (some b)) o)
    unfolding div_identities effect
    div-Keeps h =
        let rules = div_rules (read env a) (read env b) e wa wb h in
        ground (
          arith,
          eq_int-read d env a 0,
          eq_int-read d env b 1,
          eq_int-read d env b Word.minus_one,
          eq_argument-read d env a b,
        )
