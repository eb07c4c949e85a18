-- ===== src/Platform.antt =====
-- src/Platform.cpp: the two targets.
use eddic.Prelude.{ℕ, ◌==◌, Option, none, some, List, [], ◌∷◌, ◌||◌, if◌then◌else◌}
use eddic.Types.{BaseType, string, int, char, bool, float, void}

pub data Platform : Type 0 where
  intel_x86 intel_x86_64 : Platform

-- A method that does not return, cpp_unreachable or a failed cpp_assert, gives `none`.
pub record PlatformDescriptor : Type 0 where
  pub size_of : BaseType → ℕ
  pub number_of_int_param_registers : ℕ
  pub number_of_float_param_registers : ℕ
  pub number_of_registers : ℕ
  pub symbolic_registers : List ℕ
  pub number_of_float_registers : ℕ
  pub symbolic_float_registers : List ℕ
  pub int_variable_register : ℕ → Option ℕ
  pub int_param_register : ℕ → Option ℕ
  pub float_param_register : ℕ → Option ℕ
  pub int_return_register1 : ℕ
  pub int_return_register2 : ℕ
  pub float_return_register : ℕ
  pub a_register : ℕ
  pub d_register : ℕ

abbrev x86_size : BaseType → ℕ
x86_size string = 8
x86_size int = 4
x86_size char = 1
x86_size bool = 1
x86_size float = 4
x86_size void = 0

abbrev x86_64_size : BaseType → ℕ
x86_64_size string = 16
x86_64_size int = 8
x86_64_size char = 1
x86_64_size bool = 1
x86_64_size float = 8
x86_64_size void = 0

abbrev at_one : ℕ → ℕ → Option ℕ
at_one r position = if position == 1 then some r else none

abbrev at_two : ℕ → ℕ → ℕ → Option ℕ
at_two r t position =
    if position == 1 || position == 2 then some (if position == 1 then r else t) else none

abbrev pub x86_descriptor : PlatformDescriptor
x86_descriptor = record {
  size_of = x86_size;
  number_of_int_param_registers = 1;
  number_of_float_param_registers = 1;
  number_of_registers = 6;
  symbolic_registers = 0 ∷ 1 ∷ 2 ∷ 3 ∷ 4 ∷ 5 ∷ [];
  number_of_float_registers = 8;
  symbolic_float_registers = 0 ∷ 1 ∷ 2 ∷ 3 ∷ 4 ∷ 5 ∷ 6 ∷ 7 ∷ [];
  int_variable_register = λ position. none;
  int_param_register = at_one 2;
  float_param_register = at_one 7;
  int_return_register1 = 0;
  int_return_register2 = 1;
  float_return_register = 0;
  a_register = 0;
  d_register = 3;
}

abbrev pub x86_64_descriptor : PlatformDescriptor
x86_64_descriptor = record {
  size_of = x86_64_size;
  number_of_int_param_registers = 2;
  number_of_float_param_registers = 1;
  number_of_registers = 14;
  symbolic_registers = 4 ∷ 5 ∷ 6 ∷ 7 ∷ 8 ∷ 9 ∷ 10 ∷ 11 ∷ 12 ∷ 13 ∷ 3 ∷ 2 ∷ 1 ∷ 0 ∷ [];
  number_of_float_registers = 8;
  symbolic_float_registers = 0 ∷ 1 ∷ 2 ∷ 3 ∷ 4 ∷ 5 ∷ 6 ∷ 7 ∷ [];
  int_variable_register = at_two 10 11;
  int_param_register = at_two 12 13;
  float_param_register = λ position. if position == 1 then some 7 else none;
  int_return_register1 = 0;
  int_return_register2 = 1;
  float_return_register = 0;
  a_register = 0;
  d_register = 3;
}

abbrev pub get_platform_descriptor : Platform → PlatformDescriptor
get_platform_descriptor intel_x86 = x86_descriptor
get_platform_descriptor intel_x86_64 = x86_64_descriptor
