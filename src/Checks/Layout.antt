-- ===== src/Checks/Layout.antt =====
-- A structure with a parent, on the 32-bit target, and one with an array of itself.
use eddic.Prelude.{◌+◌, ◌≤◌, ◌≡◌, refl, arith, false, none, some, List, [], ◌∷◌, ◌⊎◌}
use eddic.Types.{SourceType, Name, BaseType, standard, custom, array}
use eddic.Types.Mangle.{mangle}
use eddic.Types.Decimal.{decimal}
use eddic.Platform.{intel_x86}
use eddic.Layout.{
  Struct, get_struct, find_struct, size, size_loop, self_size_of_struct, total_size_of_struct,
  member_offset, offset_loop, member_loop, member_exists, find_member, compute_member, member_type,
  is_recursively_nested,
}
use eddic.Layout.Offsets.{HasSize}
use eddic.Layout.Extent.{HasExtent, root, derived}
use eddic.Layout.Inherited.{compute_member-bounds, compute_member_apart}
use eddic.Layout.Found.{NoneEmpty, member_type-member_offset}
use eddic.Layout.Nested.{size-is_recursively_nested}

abbrev int_type : SourceType
int_type = standard BaseType.int false

abbrev char_type : SourceType
char_type = standard BaseType.char false

abbrev name_of : SourceType → Name
name_of t = mangle t

abbrev parent_type : SourceType
parent_type = custom (b'P' ∷ [])

abbrev child_type : SourceType
child_type = custom (b'Q' ∷ [])

abbrev parent : Struct
parent = record {
  name = name_of parent_type;
  members =
      record { name = b'a' ∷ []; type = int_type }
      ∷ record { name = b'b' ∷ []; type = char_type }
      ∷ [];
  parent_type = none;
}

abbrev child : Struct
child = record {
  name = name_of child_type;
  members =
      record { name = b'c' ∷ []; type = char_type }
      ∷ record { name = b'd' ∷ []; type = array int_type (some 3) }
      ∷ [];
  parent_type = some parent_type;
}

abbrev structs : List Struct
structs = parent ∷ child ∷ []

child_found : get_struct structs child_type ≡ some child
unfolding get_struct find_struct mangle decimal
child_found = refl

child-HasExtent : HasExtent (size structs intel_x86 9) structs 1 child 22
unfolding size get_struct find_struct mangle decimal
child-HasExtent =
    derived 0 child parent parent_type 17 5 refl refl (1, 16, refl, (16, 0, refl, refl, refl), refl)
      (root 0 parent 5 refl (4, 1, refl, (1, 0, refl, refl, refl), refl))

member_d :
    compute_member (size structs intel_x86 9) structs 1 child_type (b'd' ∷ [])
    ≡ some (1, array int_type (some 3))
unfolding compute_member member_loop member_exists find_member member_offset offset_loop size
    get_struct find_struct mangle decimal
member_d = refl

member_b :
    compute_member (size structs intel_x86 9) structs 1 child_type (b'b' ∷ [])
    ≡ some (21, char_type)
unfolding compute_member member_loop member_exists find_member member_offset offset_loop
    self_size_of_struct size_loop size get_struct find_struct mangle decimal
member_b = refl

size_d : size structs intel_x86 9 (array int_type (some 3)) ≡ some 16
unfolding size
size_d = refl

size_b : size structs intel_x86 9 char_type ≡ some 1
unfolding size
size_b = refl

compute_member-bounds_example :
    (1 + 16 ≤ 22) × (total_size_of_struct (size structs intel_x86 9) structs 1 child ≡ some 22)
compute_member-bounds_example =
    compute_member-bounds structs intel_x86 9 1 child_type child (b'd' ∷ []) 1 16 22
      (array int_type (some 3)) member_d size_d child_found child-HasExtent (omega arith)

compute_member_apart_example : (1 + 16 ≤ 21) ⊎ (21 + 1 ≤ 1)
compute_member_apart_example =
    compute_member_apart structs intel_x86 9 1 child_type child (b'd' ∷ []) (b'b' ∷ []) 1 16 21 1 22
      (array int_type (some 3)) char_type member_d size_d member_b size_b child_found
      child-HasExtent (omega arith) refl

offset_d : member_offset (size structs intel_x86 9) child (b'd' ∷ []) ≡ some 1
unfolding member_offset offset_loop size
offset_d = refl

find_d : find_member child.members (b'd' ∷ []) ≡ some (array int_type (some 3))
unfolding find_member
find_d = refl

child-NoneEmpty : NoneEmpty (size structs intel_x86 9) child.members
unfolding size
child-NoneEmpty = ((λ e. ground arith), ((λ e. ground arith), tt))

child-HasSize : HasSize (size structs intel_x86 9) child.members 17
unfolding size
child-HasSize = (1, 16, refl, (16, 0, refl, refl, refl), refl)

member_type-member_offset_example :
    member_type (size structs intel_x86 9) child 1 ≡ some (array int_type (some 3))
member_type-member_offset_example =
    member_type-member_offset (size structs intel_x86 9) child (b'd' ∷ []) 17 1
      (array int_type (some 3)) child-HasSize (omega arith) child-NoneEmpty find_d offset_d

abbrev nested_type : SourceType
nested_type = custom (b'N' ∷ [])

abbrev nested : Struct
nested = record {
  name = name_of nested_type;
  members = record { name = b'x' ∷ []; type = array nested_type (some 2) } ∷ [];
  parent_type = none;
}

nested_found : get_struct (nested ∷ []) nested_type ≡ some nested
unfolding get_struct find_struct mangle decimal
nested_found = refl

size-is_recursively_nested_example :
    (is_recursively_nested (nested ∷ []) 100 (some nested) ≡ some false)
    × (size (nested ∷ []) intel_x86 1000 nested_type ≡ none)
size-is_recursively_nested_example =
    size-is_recursively_nested (nested ∷ []) intel_x86 (b'N' ∷ []) (b'x' ∷ []) 2 nested nested_found
      refl 1000 99
