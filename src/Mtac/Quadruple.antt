-- ===== src/Mtac/Quadruple.antt =====
-- include/mtac/Argument.hpp, include/mtac/Quadruple.hpp, include/mtac/OptimizerUtils.hpp and
-- src/mtac/Quadruple.cpp: arguments, quadruples, and the edits that the passes make on them.
-- `double` is the processor's: the carrier and its operations are a parameter.
use Prim.Native.String.{String}
use package.text.Mathlib.Text.{◌==◌ as str_eq}
use eddic.Prelude.{ℕ, Bool, true, false, Option, none, some, ◌==◌}
use eddic.Mtac.Operator.{Operator}

-- The operations of `double` that the compiler calls.
pub record Doubles (D : Type 0) : Type 0 where
  -- `(float) i`, and the `double` with the value of the `int` i
  pub float_of_int : ℕ → D
  pub literal : ℕ → D
  -- `(int) x`
  pub int_of_double : D → ℕ
  pub eq : D → D → Bool
  pub lt : D → D → Bool
  pub le : D → D → Bool
  pub add : D → D → D
  pub sub : D → D → D
  pub mul : D → D → D
  pub div : D → D → D

-- boost::variant<std::shared_ptr<Variable>, double, int, std::string>; a shared_ptr is compared by
-- the object that it points to, which is a number here, and an `int` is its bit pattern.
pub data Argument (D : Type 0) : Type 0 where
  variable : ℕ → Argument D
  double : D → Argument D
  int : ℕ → Argument D
  text : String → Argument D

-- include/tac/Size.hpp
pub data Size : Type 0 where
  default byte word double_word quad_word : Size

pub record Quadruple (D : Type 0) : Type 0 where
  pub uid : ℕ
  pub result : Option ℕ
  pub arg1 : Option (Argument D)
  pub arg2 : Option (Argument D)
  pub op : Operator
  pub size : Size
  pub secondary : Option ℕ
  pub m_function : Option ℕ
  pub m_param : String
  pub block : Option ℕ

module _ {D : Type 0} where
  -- operator==(const Argument&, int)
  abbrev pub eq_int : Argument D → ℕ → Bool
  eq_int (int n) b = n == b
  eq_int _ b = false

  -- operator==(const Argument&, double): it asks the variant for an `int`. The literals that it is
  -- called with are whole numbers, given here by the `int` of that value.
  abbrev pub eq_double : Argument D → ℕ → Bool
  eq_double (int n) b = n == b
  eq_double _ b = false

  -- operator==(const Argument&, const std::shared_ptr<Variable>&); `none` is the null pointer
  abbrev pub eq_variable : Argument D → Option ℕ → Bool
  eq_variable (variable x) (some y) = x == y
  eq_variable _ _ = false

  -- replaceRight(visitor, quadruple, arg, op), with the visitor's `optimized`
  abbrev pub replace_right : Quadruple D → Argument D → Operator → Quadruple D × Bool
  replace_right q arg o = (record q { op = o; arg1 = some arg; arg2 = none }, true)

  -- replaceRight(visitor, quadruple, arg1, op, arg2)
  abbrev pub replace_right_binary :
      Quadruple D → Argument D → Operator → Argument D → Quadruple D × Bool
  replace_right_binary q a o b = (record q { op = o; arg1 = some a; arg2 = some b }, true)

  abbrev pub transform_to_nop : Quadruple D → Quadruple D
  transform_to_nop q = record q {
    op = Operator.nop;
    arg1 = none;
    arg2 = none;
    result = none;
    secondary = none;
    block = none;
    m_function = none;
    m_param = "";
  }

-- operator== of boost::variant: the same alternative, and equal values of it
abbrev pub eq_argument : {D : Type 0} → Doubles D → Argument D → Argument D → Bool
eq_argument d (variable x) (variable y) = x == y
eq_argument d (double x) (double y) = d.eq x y
eq_argument d (int m) (int n) = m == n
eq_argument d (text s) (text t) = str_eq s t
eq_argument d _ _ = false
