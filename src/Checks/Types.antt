-- ===== src/Checks/Types.antt =====
-- The mangled names of examples, and the theorems of Types at them.
use eddic.Prelude.{length, ◌<◌, ◌≡◌, ◌↔◌, refl, true, false, none, some, [], ◌∷◌, ◌++◌, arith}
use eddic.Types.{
  int, Name, SourceType, standard, custom, array, template, nil, cons, type_eq, types_eq, name_eq,
}
use eddic.Types.Mangle.{mangle, mangle_all, mangle_function, prefix}
use eddic.Types.Decimal.{decimal}
use eddic.Types.Unmangle.{unmangle}
use eddic.Types.Unmangle.Shown.{show, show_parameters, show_function, IsReadable}
use eddic.Types.Unmangle.Restored.{unmangle-mangle_function}
use eddic.Types.Unique.{mangle-eq_iff, mangle_function_unique, IsSameStruct}

abbrev int_type : SourceType
int_type = standard int false

-- "max"
abbrev max_name : Name
max_name = b'm' ∷ b'a' ∷ b'x' ∷ []

-- List<int, A[]>
abbrev list_type : SourceType
list_type =
    template (b'L' ∷ b'i' ∷ b's' ∷ b't' ∷ [])
      (cons int_type (cons (array (custom (b'A' ∷ [])) none) nil))

-- T4List2IAU1A
mangle_list :
    mangle list_type
    ≡ b'T' ∷ b'4' ∷ b'L' ∷ b'i' ∷ b's' ∷ b't' ∷ b'2' ∷ b'I' ∷ b'A' ∷ b'U' ∷ b'1' ∷ b'A' ∷ []
unfolding mangle decimal
mangle_list = refl

mangle-eq_iff_example : (mangle list_type ≡ mangle list_type) ↔ (type_eq list_type list_type ≡ true)
mangle-eq_iff_example =
    mangle-eq_iff list_type list_type (refl, omega arith, (tt, (refl, tt)))
      (refl, omega arith, (tt, (refl, tt)))

same_max :
    mangle_function max_name (cons int_type nil) (some list_type)
    ≡ mangle_function max_name (cons (standard int true) nil) (some list_type)
unfolding mangle_function mangle
same_max = refl

mangle_function_unique_example :
    (name_eq max_name max_name ≡ true)
    × (types_eq (cons int_type nil) (cons (standard int true) nil) ≡ true)
    × IsSameStruct (some list_type) (some list_type)
mangle_function_unique_example =
    mangle_function_unique max_name max_name (cons int_type nil) (cons (standard int true) nil)
      (some list_type) (some list_type) refl refl (tt, tt) (tt, tt)
      (refl, omega arith, (tt, (refl, tt))) (refl, omega arith, (tt, (refl, tt))) same_max

show_max :
    show_function max_name (cons int_type (cons int_type nil)) none
    ≡ max_name ++ (b'(' ∷ b'i' ∷ b'n' ∷ b't' ∷ b'i' ∷ b'n' ∷ b't' ∷ b')' ∷ [])
unfolding show_function show_parameters show mangle_all mangle
show_max = refl

max_short :
    length (mangle_function max_name (cons int_type (cons list_type nil)) (some list_type))
    < 0xffff_ffff
unfolding mangle_function prefix mangle mangle_all decimal
max_short = omega arith

unmangle-mangle_function_example :
    unmangle (mangle_function max_name (cons int_type (cons list_type nil)) (some list_type))
    ≡ some (show_function max_name (cons int_type (cons list_type nil)) (some list_type))
unmangle-mangle_function_example =
    unmangle-mangle_function max_name (cons int_type (cons list_type nil)) (some list_type) refl
      (tt, (list_readable, tt)) list_readable max_short
  where
    list_readable : IsReadable list_type
    list_readable = (refl, omega arith, omega arith, (tt, ((refl, refl), tt)))
