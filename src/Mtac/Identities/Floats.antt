-- ===== src/Mtac/Identities/Floats.antt =====
-- What ArithmeticIdentities does to the operators of floats.
use mathlib.Core.Path.{subst}
use eddic.Prelude.{ℕ, ◌≡◌, refl, sym, Bool, true, false, ◌&&◌, some}
use eddic.Mtac.Operator.{Operator}
use eddic.Mtac.Quadruple.{
  Doubles, Argument, Quadruple, variable, double, int, text, eq_argument, eq_double, eq_int,
}
use eddic.Mtac.Preserve.{quad}
use eddic.Mtac.Identities.{arithmetic_identities}

abbrev pub IsFloatOperator : Operator → Type 0
IsFloatOperator Operator.fadd = Unit
IsFloatOperator Operator.fsub = Unit
IsFloatOperator Operator.fmul = Unit
IsFloatOperator Operator.fdiv = Unit
IsFloatOperator _ = ⊥

-- The operators with a rule for equal arguments.
abbrev pub cancels : Operator → Bool
cancels Operator.fsub = true
cancels Operator.fdiv = true
cancels _ = false

abbrev pub is_int : {D : Type 0} → Argument D → Bool
is_int (int n) = true
is_int _ = false

parts-eq :
    {D : Type 0} (q : Quadruple D) (a b : Argument D)
    → q.arg1 ≡ some a
    → q.arg2 ≡ some b
    → quad q q.op (some a) (some b) ≡ q
parts-eq q a b ea eb i = record q { arg1 = sym ea i; arg2 = sym eb i }

module _ {D : Type 0} (d : Doubles D) where
  eq_int-false : (a : Argument D) (n : ℕ) → is_int a ≡ false → eq_int a n ≡ false
  eq_int-false (variable x) n h = refl
  eq_int-false (double x) n h = refl
  eq_int-false (text x) n h = refl
  eq_int-false (int m) n h = cc

  eq_double-false : (a : Argument D) (n : ℕ) → is_int a ≡ false → eq_double a n ≡ false
  eq_double-false (variable x) n h = refl
  eq_double-false (double x) n h = refl
  eq_double-false (text x) n h = refl
  eq_double-false (int m) n h = cc

  untouched :
      (q : Quadruple D) (o : Bool) (op : Operator) (a b : Argument D)
      → IsFloatOperator op
      → is_int a ≡ false
      → is_int b ≡ false
      → (cancels op && eq_argument d a b) ≡ false
      → arithmetic_identities d (quad q op (some a) (some b)) o
        ≡ some (quad q op (some a) (some b), o)
  unfolding arithmetic_identities
  untouched q o Operator.fadd a b f ha hb h = simp (eq_double-false, ha, hb)
  untouched q o Operator.fsub a b f ha hb h = simp (eq_double-false, ha, hb, h)
  untouched q o Operator.fmul a b f ha hb h = simp (eq_double-false, eq_int-false, ha, hb)
  untouched q o Operator.fdiv a b f ha hb h = simp (eq_double-false, ha, hb, h)
  untouched q o op a b f ha hb h = absurd f

-- On FADD, FSUB, FMUL and FDIV with two arguments that are no integers ArithmeticIdentities changes
-- nothing, unless the operator is FSUB or FDIV and the arguments are equal: the literals 0.0, 1.0 and
-- -1.0 are not found.
pub arithmetic_identities-float :
    {D : Type 0} (d : Doubles D) (q : Quadruple D) (optimized : Bool) (a b : Argument D)
    → IsFloatOperator q.op
    → q.arg1 ≡ some a
    → q.arg2 ≡ some b
    → is_int a ≡ false
    → is_int b ≡ false
    → (cancels q.op && eq_argument d a b) ≡ false
    → arithmetic_identities d q optimized ≡ some (q, optimized)
arithmetic_identities-float d q optimized a b f ea eb ha hb h =
    subst (λ r. arithmetic_identities d r optimized ≡ some (r, optimized)) (parts-eq q a b ea eb)
      (untouched d q optimized q.op a b f ha hb h)
