-- ===== src/Types/Mangle.antt =====
-- src/mangling.cpp: the names under which functions and structures are registered.
pub mod Onto
use eddic.Prelude.{
  ℕ, zero, suc, Bool, true, false, Option, none, some, List, [], ◌∷◌, ◌++◌, length, if◌then◌else◌,
}
use eddic.Types.{
  BaseType, string, int, char, bool, float, void, Name, SourceType, SourceTypes, standard, custom,
  array, pointer, template, nil, cons, name_eq,
}
use eddic.Types.Decimal.{decimal}

abbrev pub base_code : BaseType → ℕ
base_code int = b'I'
base_code char = b'C'
base_code string = b'S'
base_code bool = b'B'
base_code float = b'F'
base_code void = b'V'

abbrev pub count : SourceTypes → ℕ
count nil = 0
count (cons t ts) = suc (count ts)

-- `ss << name.length() << name`
abbrev pub sized : Name → List ℕ
sized s = decimal (length s) ++ s

-- mangle(type); `mangle_all` is the loop over the types
unfoldable mutual
  pub mangle : SourceType → Name
  mangle (array t n) = b'A' ∷ mangle t
  mangle (pointer t) = b'P' ∷ mangle t
  mangle (standard b c) = base_code b ∷ []
  mangle (custom s) = b'U' ∷ sized s
  mangle (template s ts) = b'T' ∷ (sized s ++ (decimal (count ts) ++ mangle_all ts))

  pub mangle_all : SourceTypes → List ℕ
  mangle_all nil = []
  mangle_all (cons t ts) = mangle t ++ mangle_all ts

-- `_M` and the structure, or `_F`
unfoldable pub prefix : Option SourceType → List ℕ
prefix (some t) = b'_' ∷ b'M' ∷ mangle t
prefix none = b'_' ∷ b'F' ∷ []

-- mangle(functionName, types, struct_type)
unfoldable pub mangle_function : Name → SourceTypes → Option SourceType → Name
unfolding prefix
mangle_function f ts struct_type = prefix struct_type ++ (sized f ++ mangle_all ts)

-- mangle_ctor(types, struct_type) and mangle_dtor(struct_type)
unfoldable pub mangle_ctor : SourceTypes → SourceType → Name
mangle_ctor ts struct_type = b'_' ∷ b'C' ∷ (mangle struct_type ++ mangle_all ts)

unfoldable pub mangle_dtor : SourceType → Name
mangle_dtor struct_type = b'_' ∷ b'D' ∷ mangle struct_type

-- A parameter of a function: its name and its type. The one named `this` is not mangled.
pub record Parameter : Type 0 where
  pub name : Name
  pub type : SourceType

abbrev this : Name
this = b't' ∷ b'h' ∷ b'i' ∷ b's' ∷ []

unfoldable pub mangled_types : List Parameter → SourceTypes
mangled_types [] = nil
mangled_types (p ∷ ps) =
    let rest = mangled_types ps in if name_eq p.name this then rest else cons p.type rest

-- mangle(name, parameters, struct_type) and mangle_ctor(parameters, struct_type)
unfoldable pub mangle_parameters : Name → List Parameter → Option SourceType → Name
unfolding mangled_types mangle_function
mangle_parameters f ps struct_type = mangle_function f (mangled_types ps) struct_type

unfoldable pub mangle_ctor_parameters : List Parameter → SourceType → Name
unfolding mangled_types mangle_ctor
mangle_ctor_parameters ps struct_type = mangle_ctor (mangled_types ps) struct_type
