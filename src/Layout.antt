-- ===== src/Layout.antt =====
-- src/Struct.cpp, the structures of src/GlobalContext.cpp, Type::size of src/Type.cpp and
-- compute_member of src/mtac/Utils.cpp. A size is an unsigned int, and an int is a 32-bit word. `none` is a failed assertion, a
-- read of a null pointer, or a recursion that does not end within the fuel.
pub mod Offsets
pub mod Extent
pub mod Placed
pub mod Inherited
pub mod Found
pub mod Nested
use eddic.Prelude.{
  ℕ, zero, suc, ◌+◌, ◌*◌, ◌%◌, ◌≤◌, Bool, true, false, ◌||◌, Option, none, some, List, [], ◌∷◌,
  if◌then◌else◌, ◌>>=◌,
}
use eddic.Types.{
  SourceType, Name, int, standard, custom, array, pointer, template, is_structure, name_eq,
}
use eddic.Types.Mangle.{mangle}
use eddic.Word.{less_eq}
use eddic.Platform.{Platform, get_platform_descriptor}

pub record Member : Type 0 where
  pub name : Name
  pub type : SourceType

pub record Struct : Type 0 where
  pub name : Name
  pub members : List Member
  pub parent_type : Option SourceType

abbrev pub wrap : ℕ → ℕ
wrap n = n % 0x1_0000_0000

unfoldable pub member_exists : List Member → Name → Bool
member_exists [] n = false
member_exists (m ∷ rest) n = name_eq m.name n || member_exists rest n

-- operator[], as far as its type
unfoldable pub find_member : List Member → Name → Option SourceType
find_member [] n = none
find_member (m ∷ rest) n =
    let later = find_member rest n in if name_eq m.name n then some m.type else later

-- `m_structs`, the last one added first
unfoldable pub add_struct : Struct → List Struct → List Struct
add_struct s structs = s ∷ structs

unfoldable pub find_struct : List Struct → Name → Option Struct
find_struct [] n = none
find_struct (s ∷ rest) n =
    let later = find_struct rest n in if name_eq s.name n then some s else later

abbrev pub pointee : SourceType → SourceType
pointee (pointer t) = t
pointee t = t

-- get_struct of a type that is not null
unfoldable pub get_struct : List Struct → SourceType → Option Struct
unfolding find_struct
get_struct structs t =
    let found = find_struct structs (mangle (pointee t)) in
    if is_structure (pointee t) then found else none

-- The sizes of the types are given.
module _ (size_of : SourceType → Option ℕ) where
  -- the loop of member_offset
  unfoldable pub offset_loop : List Member → Name → ℕ → Option ℕ
  offset_loop [] member offset = none
  offset_loop (m ∷ rest) member offset =
      let later = do k ← size_of m.type; offset_loop rest member (wrap (offset + k))
      in if name_eq m.name member then some offset else later

  unfoldable pub member_offset : Struct → Name → Option ℕ
  unfolding offset_loop
  member_offset s member = offset_loop s.members member 0

  -- the loop of member_type, which compares two int; `last` is the type of members.back()
  unfoldable pub type_loop : List Member → ℕ → ℕ → Option SourceType → Option SourceType
  unfolding less_eq
  type_loop [] offset current_offset last = last
  type_loop (m ∷ rest) offset current_offset last =
      let later = do
        k ← size_of m.type
        type_loop rest offset (wrap (current_offset + k)) (some m.type)
      in if less_eq offset current_offset then some m.type else later

  unfoldable pub member_type : Struct → ℕ → Option SourceType
  unfolding type_loop
  member_type s offset = type_loop s.members offset 0 none

  unfoldable pub size_loop : List Member → ℕ → Option ℕ
  size_loop [] struct_size = some struct_size
  size_loop (m ∷ rest) struct_size = do k ← size_of m.type; size_loop rest (wrap (struct_size + k))

  unfoldable pub self_size_of_struct : Struct → Option ℕ
  unfolding size_loop
  self_size_of_struct s = size_loop s.members 0

  module _ (structs : List Struct) where
    -- while(struct_->parent_type), on fuel
    unfoldable pub total_loop : ℕ → Option SourceType → ℕ → Option ℕ
    unfolding self_size_of_struct
    total_loop fuel none total = some total
    total_loop zero (some t) total = none
    total_loop (suc fuel) (some t) total = do
      s ← get_struct structs t
      k ← self_size_of_struct s
      total_loop fuel s.parent_type (wrap (total + k))

    unfoldable pub total_size_of_struct : ℕ → Struct → Option ℕ
    unfolding total_loop
    total_size_of_struct fuel s = do k ← self_size_of_struct s; total_loop fuel s.parent_type k

    -- The loop of compute_member, on fuel: the structure that has the member, and the offset of it. A
    -- member that no structure has fails the assertion.
    unfoldable pub member_loop : ℕ → Struct → Name → ℕ → Option (ℕ × Struct)
    unfolding self_size_of_struct member_exists
    member_loop zero s member offset =
        if member_exists s.members member then some (offset, s) else none
    member_loop (suc fuel) s member offset =
        let later = do
          k ← self_size_of_struct s
          t ← s.parent_type
          p ← get_struct structs t
          member_loop fuel p member (wrap (offset + k))
        in if member_exists s.members member then some (offset, s) else later

    unfoldable pub compute_member : ℕ → SourceType → Name → Option (ℕ × SourceType)
    unfolding member_loop find_member member_offset
    compute_member fuel t member = do
      s ← get_struct structs t
      (offset, owner) ← member_loop fuel s member 0
      type ← find_member owner.members member
      o ← member_offset owner member
      some (wrap (offset + o), type)

module _ (structs : List Struct) (platform : Platform) where
  abbrev int_size : ℕ
  int_size = (get_platform_descriptor platform).size_of int

  -- Type::size, on fuel, which also bounds the parents of each structure
  unfoldable pub size : ℕ → SourceType → Option ℕ
  unfolding total_size_of_struct
  size zero t = none
  size (suc fuel) (standard b c) = some ((get_platform_descriptor platform).size_of b)
  size (suc fuel) (pointer t) = some int_size
  size (suc fuel) (array t none) = some int_size
  size (suc fuel) (array t (some n)) = do k ← size fuel t; some (wrap (k * n + int_size))
  size (suc fuel) (custom s) = do
    owner ← get_struct structs (custom s)
    total_size_of_struct (λ t. size fuel t) structs fuel owner
  size (suc fuel) (template s ts) = do
    owner ← get_struct structs (template s ts)
    total_size_of_struct (λ t. size fuel t) structs fuel owner

-- the loop of is_recursively_nested, where `nested` is the call for the structure of a member
unfoldable pub any_nested : (SourceType → Option Bool) → List Member → Option Bool
any_nested nested [] = some false
any_nested nested (m ∷ rest) =
    let later = any_nested nested rest in
    let inner = do deeper ← nested m.type; if deeper then some true else later
    in if is_structure m.type then inner else later

-- A null pointer is `none`, and is read unless nothing is left.
unfoldable pub is_recursively_nested : List Struct → ℕ → Option Struct → Option Bool
unfolding any_nested
is_recursively_nested structs zero s = some true
is_recursively_nested structs (suc left) none = none
is_recursively_nested structs (suc left) (some s) =
    any_nested (λ t. is_recursively_nested structs left (get_struct structs t)) s.members
