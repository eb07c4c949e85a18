-- ===== src/Mtac/Operator.antt =====
-- include/mtac/Operator.hpp: the operators of the three-address code, in the order of the
-- enumeration, which the tests of src/mtac/Quadruple.cpp and src/mtac/Utils.cpp compare by.
use eddic.Prelude.{ℕ, Bool, ◌&&◌, leb, ◌==◌}

-- `modulo` is MOD, whose name is a reserved word.
pub data Operator : Type 0 where
  assign fassign passign : Operator
  add sub mul div modulo : Operator
  fadd fsub fmul fdiv : Operator
  equals not_equals greater greater_equals less less_equals : Operator
  if_unary : Operator
  if_equals if_not_equals if_greater if_greater_equals if_less if_less_equals : Operator
  if_fe if_fne if_fg if_fge if_fle if_fl : Operator
  if_false_unary : Operator
  if_false_equals if_false_not_equals if_false_greater if_false_greater_equals if_false_less
        if_false_less_equals :
      Operator
  if_false_fe if_false_fne if_false_fg if_false_fge if_false_fle if_false_fl : Operator
  not and : Operator
  fe fne fg fge fle fl : Operator
  minus fminus : Operator
  i2f f2i : Operator
  dot fdot pdot : Operator
  dot_assign dot_fassign dot_passign : Operator
  goto return nop : Operator
  param pparam : Operator
  call label : Operator

-- The number that `enum class Operator : unsigned int` gives an operator.
unfoldable pub position : Operator → ℕ
position assign = 0
position fassign = 1
position passign = 2
position add = 3
position sub = 4
position mul = 5
position div = 6
position modulo = 7
position fadd = 8
position fsub = 9
position fmul = 10
position fdiv = 11
position equals = 12
position not_equals = 13
position greater = 14
position greater_equals = 15
position less = 16
position less_equals = 17
position if_unary = 18
position if_equals = 19
position if_not_equals = 20
position if_greater = 21
position if_greater_equals = 22
position if_less = 23
position if_less_equals = 24
position if_fe = 25
position if_fne = 26
position if_fg = 27
position if_fge = 28
position if_fle = 29
position if_fl = 30
position if_false_unary = 31
position if_false_equals = 32
position if_false_not_equals = 33
position if_false_greater = 34
position if_false_greater_equals = 35
position if_false_less = 36
position if_false_less_equals = 37
position if_false_fe = 38
position if_false_fne = 39
position if_false_fg = 40
position if_false_fge = 41
position if_false_fle = 42
position if_false_fl = 43
position not = 44
position and = 45
position fe = 46
position fne = 47
position fg = 48
position fge = 49
position fle = 50
position fl = 51
position minus = 52
position fminus = 53
position i2f = 54
position f2i = 55
position dot = 56
position fdot = 57
position pdot = 58
position dot_assign = 59
position dot_fassign = 60
position dot_passign = 61
position goto = 62
position return = 63
position nop = 64
position param = 65
position pparam = 66
position call = 67
position label = 68

-- `low <= op && op <= high`
abbrev pub within : Operator → Operator → Operator → Bool
within low high op = leb (position low) (position op) && leb (position op) (position high)

unfoldable pub is_if : Operator → Bool
unfolding position
is_if op = within if_unary if_fl op

unfoldable pub is_if_false : Operator → Bool
unfolding position
is_if_false op = within if_false_unary if_false_fl op

-- `op == other`
abbrev pub same : Operator → Operator → Bool
same op other = position op == position other
