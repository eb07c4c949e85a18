-- ===== src/Mtac/Meaning.antt =====
-- What a quadruple does when it runs: the specification that the passes are held to. The code
-- generator of the 32-bit target gives the integer operators the meaning of `Word`.
use Prim.Native.String.{String}
use eddic.Prelude.{ℕ, ◌==◌, ◌≡◌, Bool, false, Option, none, some, if◌then◌else◌, ◌>>=◌}
use mathlib.Core.Bool.{not}
use Prim.Native.Nat.{bit_and}
use eddic.Word
use eddic.Word.{IsWord, of_bool, less, less_eq}
use eddic.Mtac.Operator.{Operator}
use eddic.Mtac.Quadruple.{Doubles, Argument, Quadruple, variable, double, int, text}

-- What a variable holds: an integer (or a boolean, a character, a pointer), a float, a label.
pub data Value (D : Type 0) : Type 0 where
  integer : ℕ → Value D
  real : D → Value D
  address : String → Value D

-- A quadruple writes its result, decides a jump, or does nothing.
pub data Effect (D : Type 0) : Type 0 where
  writes : Value D → Effect D
  jumps : Bool → Effect D
  idle : Effect D

module _ {D : Type 0} where
  abbrev pub read : (ℕ → Value D) → Argument D → Value D
  read env (variable x) = env x
  read env (double x) = real x
  read env (int n) = integer n
  read env (text s) = address s

  abbrev pub as_integer : Value D → Option ℕ
  as_integer (integer n) = some n
  as_integer _ = none

  abbrev pub as_real : Value D → Option D
  as_real (real x) = some x
  as_real _ = none

  -- An assignment of the wrong kind has no meaning: FASSIGN writes a float register.
  abbrev pub not_real : Value D → Option (Effect D)
  not_real (real x) = none
  not_real v = some (writes v)

  abbrev pub is_real : Value D → Option (Effect D)
  is_real (real x) = some (writes (real x))
  is_real v = none

  abbrev pub writes_word : ℕ → Option (Effect D)
  writes_word n = some (writes (integer n))

  abbrev pub set_flag : Bool → Option (Effect D)
  set_flag b = some (writes (integer (of_bool b)))

  -- The integer operators of two arguments.
  unfoldable pub integer_op : Operator → ℕ → ℕ → Option (Effect D)
  integer_op Operator.add a b = writes_word (Word.add a b)
  integer_op Operator.sub a b = writes_word (Word.sub a b)
  integer_op Operator.mul a b = writes_word (Word.mul a b)
  integer_op Operator.div a b = Word.div a b >>= writes_word
  integer_op Operator.modulo a b = Word.rem a b >>= writes_word
  integer_op Operator.and a b = writes_word (bit_and a b)
  integer_op Operator.equals a b = set_flag (a == b)
  integer_op Operator.not_equals a b = set_flag (not (a == b))
  integer_op Operator.greater a b = set_flag (less b a)
  integer_op Operator.greater_equals a b = set_flag (less_eq b a)
  integer_op Operator.less a b = set_flag (less a b)
  integer_op Operator.less_equals a b = set_flag (less_eq a b)
  integer_op Operator.if_equals a b = some (jumps (a == b))
  integer_op Operator.if_not_equals a b = some (jumps (not (a == b)))
  integer_op Operator.if_greater a b = some (jumps (less b a))
  integer_op Operator.if_greater_equals a b = some (jumps (less_eq b a))
  integer_op Operator.if_less a b = some (jumps (less a b))
  integer_op Operator.if_less_equals a b = some (jumps (less_eq a b))
  integer_op Operator.if_false_equals a b = some (jumps (not (a == b)))
  integer_op Operator.if_false_not_equals a b = some (jumps (a == b))
  integer_op Operator.if_false_greater a b = some (jumps (not (less b a)))
  integer_op Operator.if_false_greater_equals a b = some (jumps (not (less_eq b a)))
  integer_op Operator.if_false_less a b = some (jumps (not (less a b)))
  integer_op Operator.if_false_less_equals a b = some (jumps (not (less_eq a b)))
  integer_op _ a b = none

-- The float operators of two arguments.
unfoldable pub real_op : {D : Type 0} (d : Doubles D) → Operator → D → D → Option (Effect D)
real_op d Operator.fadd a b = some (writes (real (d.add a b)))
real_op d Operator.fsub a b = some (writes (real (d.sub a b)))
real_op d Operator.fmul a b = some (writes (real (d.mul a b)))
real_op d Operator.fdiv a b = some (writes (real (d.div a b)))
real_op d Operator.fe a b = set_flag (d.eq a b)
real_op d Operator.fne a b = set_flag (not (d.eq a b))
real_op d Operator.fg a b = set_flag (d.lt b a)
real_op d Operator.fge a b = set_flag (d.le b a)
real_op d Operator.fle a b = set_flag (d.le a b)
real_op d Operator.fl a b = set_flag (d.lt a b)
real_op d Operator.if_fe a b = some (jumps (d.eq a b))
real_op d Operator.if_fne a b = some (jumps (not (d.eq a b)))
real_op d Operator.if_fg a b = some (jumps (d.lt b a))
real_op d Operator.if_fge a b = some (jumps (d.le b a))
real_op d Operator.if_fle a b = some (jumps (d.le a b))
real_op d Operator.if_fl a b = some (jumps (d.lt a b))
real_op d Operator.if_false_fe a b = some (jumps (not (d.eq a b)))
real_op d Operator.if_false_fne a b = some (jumps (d.eq a b))
real_op d Operator.if_false_fg a b = some (jumps (not (d.lt b a)))
real_op d Operator.if_false_fge a b = some (jumps (not (d.le b a)))
real_op d Operator.if_false_fle a b = some (jumps (not (d.le a b)))
real_op d Operator.if_false_fl a b = some (jumps (not (d.lt a b)))
real_op d _ a b = none

-- The operators of one argument; the others have none here.
unfoldable pub unary_op : {D : Type 0} → Doubles D → Operator → Value D → Option (Effect D)
unary_op d Operator.assign v = not_real v
unary_op d Operator.passign v = not_real v
unary_op d Operator.fassign v = is_real v
unary_op d Operator.minus v = as_integer v >>= λ n. writes_word (Word.neg n)
unary_op d Operator.not v = as_integer v >>= λ n. set_flag (n == 0)
unary_op d Operator.i2f v = as_integer v >>= λ n. some (writes (real (d.float_of_int n)))
unary_op d Operator.fminus v =
    as_real v >>= λ x. some (writes (real (d.mul (d.literal Word.minus_one) x)))
unary_op d Operator.f2i v = as_real v >>= λ x. writes_word (d.int_of_double x)
unary_op d Operator.if_unary v = as_integer v >>= λ n. some (jumps (not (n == 0)))
unary_op d Operator.if_false_unary v = as_integer v >>= λ n. some (jumps (n == 0))
unary_op d _ v = none

-- Two integers, or two floats.
unfoldable pub binary_op :
    {D : Type 0} (d : Doubles D) → Operator → Value D → Value D → Option (Effect D)
unfolding integer_op real_op
binary_op d op (integer a) (integer b) = integer_op op a b
binary_op d op (real a) (real b) = real_op d op a b
binary_op d op _ _ = none

-- NOP takes no argument.
abbrev pub nullary_op : {D : Type 0} → Operator → Option (Effect D)
nullary_op Operator.nop = some idle
nullary_op _ = none

module _ {D : Type 0} (d : Doubles D) (env : ℕ → Value D) where
  unfoldable pub effect : Operator → Option (Argument D) → Option (Argument D) → Option (Effect D)
  effect op none none = nullary_op op
  effect op (some a) none = unary_op d op (read env a)
  effect op (some a) (some b) = binary_op d op (read env a) (read env b)
  effect op none (some b) = none

  -- The store after the quadruple, and whether control goes to `block`. A written quadruple has a
  -- result.
  abbrev pub commit : Option ℕ → Effect D → Option ((ℕ → Value D) × Bool)
  commit (some r) (writes v) = some ((λ y. if y == r then v else env y), false)
  commit none (writes v) = none
  commit r (jumps b) = some (env, b)
  commit r idle = some (env, false)

  unfoldable pub run : Quadruple D → Option ((ℕ → Value D) × Bool)
  unfolding effect
  run q = effect q.op q.arg1 q.arg2 >>= commit q.result

-- Every integer is a word.
abbrev pub IsWordValue : {D : Type 0} → Value D → Type 0
IsWordValue (integer n) = IsWord n
IsWordValue _ = Unit

abbrev pub IsWordOperand : {D : Type 0} → (ℕ → Value D) → Option (Argument D) → Type 0
IsWordOperand env none = Unit
IsWordOperand env (some a) = IsWordValue (read env a)

-- Two outcomes agree: the same jump, and the same store.
abbrev pub Agrees : {D : Type 0} → (ℕ → Value D) × Bool → Option ((ℕ → Value D) × Bool) → Type 0
Agrees s none = ⊥
Agrees s (some t) = ((y : ℕ) → t.0 y ≡ s.0 y) × (t.1 ≡ s.1)

pub Agrees-of_eq :
    {D : Type 0} (s : (ℕ → Value D) × Bool) (r : Option ((ℕ → Value D) × Bool))
    → r ≡ some s
    → Agrees s r
Agrees-of_eq s none h = cc
Agrees-of_eq s (some t) h = let e : t ≡ s = cc in (λ y i. (e i).0 y, λ i. (e i).1)

-- A pass returned a quadruple that runs as the original did: `s` is the original's outcome.
abbrev pub Preserves :
    {D : Type 0}
    → Doubles D
    → (ℕ → Value D)
    → (ℕ → Value D) × Bool
    → Option (Quadruple D × Bool)
    → Type 0
Preserves d env s none = ⊥
Preserves d env s (some (q, o)) = Agrees s (run d env q)
