-- ===== src/Types/Unmangle/Shown.antt =====
-- The text that unmangle gives for types and functions, and the types for which it does.
use eddic.Prelude.{
  ℕ, suc, ◌+◌, ◌<◌, ◌≡◌, Bool, true, false, Option, none, some, [], ◌∷◌, ◌++◌, ◌==◌, length, ltb,
  if◌then◌else◌,
}
use eddic.Types.{
  BaseType, string, int, char, bool, float, void, Name, SourceType, SourceTypes, standard, custom,
  array, pointer, template, nil, cons,
}
use eddic.Types.Mangle.{count, mangle_all}
use eddic.Types.Unique.{IsIdentifier}
use eddic.Types.Unmangle.{comma}

abbrev show_base : BaseType → Name
show_base int = b'i' ∷ b'n' ∷ b't' ∷ []
show_base char = b'c' ∷ b'h' ∷ b'a' ∷ b'r' ∷ []
show_base string = b's' ∷ b't' ∷ b'r' ∷ []
show_base bool = b'b' ∷ b'o' ∷ b'o' ∷ b'l' ∷ []
show_base float = b'f' ∷ b'l' ∷ b'o' ∷ b'a' ∷ b't' ∷ []
show_base void = []

-- An array is followed by [], a pointer by &, and the arguments of a template stand in < and >.
unfoldable mutual
  pub show : SourceType → Name
  show (standard b c) = show_base b
  show (custom s) = s
  show (array t n) = show t ++ b'[' ∷ b']' ∷ []
  show (pointer t) = show t ++ b'&' ∷ []
  show (template s ts) = s ++ b'<' ∷ (show_arguments ts ++ b'>' ∷ [])

  pub show_arguments : SourceTypes → Name
  show_arguments nil = []
  show_arguments (cons t ts) =
      show t ++ ((if count ts == 0 then [] else comma) ++ show_arguments ts)

-- No comma stands before a last parameter whose mangled type is one letter.
unfoldable pub show_parameters : SourceTypes → Name
unfolding show mangle_all
show_parameters nil = []
show_parameters (cons t ts) =
    show t ++ ((if ltb 1 (length (mangle_all ts)) then comma else []) ++ show_parameters ts)

abbrev pub show_struct : Option SourceType → Name
unfolding show
show_struct none = []
show_struct (some t) = show t ++ b':' ∷ b':' ∷ []

unfoldable pub show_function : Name → SourceTypes → Option SourceType → Name
unfolding show_parameters
show_function f ts struct_type =
    show_struct struct_type ++ (f ++ b'(' ∷ (show_parameters ts ++ b')' ∷ []))

abbrev pub is_plain : SourceType → Bool
is_plain (array t n) = false
is_plain (pointer t) = false
is_plain _ = true

-- Every name is an identifier, every template has an argument, and an array or a pointer is
-- one of a type that is neither. There is no void.
abbrev mutual
  pub IsReadable : SourceType → Type 0
  IsReadable (standard void c) = ⊥
  IsReadable (standard b c) = Unit
  IsReadable (custom s) = IsIdentifier s
  IsReadable (array t n) = (is_plain t ≡ true) × IsReadable t
  IsReadable (pointer t) = (is_plain t ≡ true) × IsReadable t
  IsReadable (template s ts) =
      IsIdentifier s × (0 < count ts) × (count ts < 0x1_0000_0000) × AreReadable ts

  pub AreReadable : SourceTypes → Type 0
  AreReadable nil = Unit
  AreReadable (cons t ts) = IsReadable t × AreReadable ts

abbrev pub IsReadableOption : Option SourceType → Type 0
IsReadableOption none = Unit
IsReadableOption (some t) = IsReadable t

-- The calls of extract_type that a type takes.
abbrev mutual
  pub calls : SourceType → ℕ
  calls (standard b c) = 1
  calls (custom s) = 1
  calls (array t n) = calls t
  calls (pointer t) = calls t
  calls (template s ts) = suc (all_calls ts)

  pub all_calls : SourceTypes → ℕ
  all_calls nil = 0
  all_calls (cons t ts) = calls t + all_calls ts
