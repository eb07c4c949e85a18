-- ===== src/Types.antt =====
-- src/Type.cpp and include/BaseType.hpp: the types of the source language. A name is a std::string,
-- the list of its bytes.
pub mod Decimal
pub mod Mangle
pub mod Unique
pub mod Unmangle
use eddic.Prelude.{
  ℕ, ◌≡◌, ◌↔◌, arith, Bool, true, false, ◌&&◌, ◌||◌, Option, none, some, List, [], ◌∷◌, ◌==◌,
}
use mathlib.Core.Bool.{not}

pub data BaseType : Type 0 where
  string int char bool float void : BaseType

abbrev pub Name : Type 0
Name = List ℕ

-- StandardType (with its `const`), CustomType, ArrayType (with `m_elements`), PointerType and
-- TemplateType.
mutual
  pub data SourceType : Type 0 where
    standard : BaseType → Bool → SourceType
    custom : Name → SourceType
    array : SourceType → Option ℕ → SourceType
    pointer : SourceType → SourceType
    template : Name → SourceTypes → SourceType

  pub data SourceTypes : Type 0 where
    nil : SourceTypes
    cons : SourceType → SourceTypes → SourceTypes

abbrev pub is_array : SourceType → Bool
is_array (array t n) = true
is_array _ = false

abbrev pub is_pointer : SourceType → Bool
is_pointer (pointer t) = true
is_pointer _ = false

abbrev pub is_custom_type : SourceType → Bool
is_custom_type (custom s) = true
is_custom_type _ = false

abbrev pub is_template_type : SourceType → Bool
is_template_type (template s ts) = true
is_template_type _ = false

abbrev pub is_structure : SourceType → Bool
is_structure t = is_custom_type t || is_template_type t

-- `none` is cpp_unreachable.
abbrev pub data_type : SourceType → Option SourceType
data_type (array t n) = some t
data_type (pointer t) = some t
data_type _ = none

-- operator== of std::string and of the enumeration
abbrev pub name_eq : Name → Name → Bool
name_eq [] [] = true
name_eq (c ∷ cs) (d ∷ ds) = c == d && name_eq cs ds
name_eq _ _ = false

abbrev pub base_position : BaseType → ℕ
base_position string = 0
base_position int = 1
base_position char = 2
base_position bool = 3
base_position float = 4
base_position void = 5

-- operator== of types: neither the number of elements nor `const` counts.
unfoldable mutual
  pub type_eq : SourceType → SourceType → Bool
  type_eq (array a m) (array b n) = type_eq a b
  type_eq (pointer a) (pointer b) = type_eq a b
  type_eq (custom s) (custom t) = name_eq s t
  type_eq (standard b c) (standard b' c') = base_position b == base_position b'
  type_eq (template s ts) (template t us) = name_eq s t && types_eq ts us
  type_eq _ _ = false

  pub types_eq : SourceTypes → SourceTypes → Bool
  types_eq nil nil = true
  types_eq (cons a ts) (cons b us) = type_eq a b && types_eq ts us
  types_eq _ _ = false
