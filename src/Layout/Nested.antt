-- ===== src/Layout/Nested.antt =====
-- A structure with an array of itself.
use eddic.Prelude.{ℕ, zero, suc, ◌≡◌, refl, false, none, some, List, [], ◌∷◌}
use eddic.Types.{Name, custom, array}
use eddic.Platform.{Platform}
use eddic.Layout.{
  Struct, get_struct, size, size_loop, self_size_of_struct, total_size_of_struct, any_nested,
  is_recursively_nested,
}

module _ (structs : List Struct) (platform : Platform) (n x : Name) (count : ℕ) (s : Struct)
    (found : get_struct structs (custom n) ≡ some s)
    (own : s.members ≡ record { name = x; type = array (custom n) (some count) } ∷ []) where
  size_none : (fuel : ℕ) → size structs platform fuel (custom n) ≡ none
  unfolding size total_size_of_struct self_size_of_struct size_loop
  size_none zero = refl
  size_none (suc zero) = rw (found, own) refl
  size_none (suc (suc fuel)) = rw (found, own, size_none fuel) refl

  -- For a structure whose only member is an array of that structure, is_recursively_nested says no,
  -- and its size ends within no fuel.
  pub size-is_recursively_nested :
      (fuel left : ℕ)
      → (is_recursively_nested structs (suc left) (some s) ≡ some false)
        × (size structs platform fuel (custom n) ≡ none)
  unfolding is_recursively_nested any_nested
  size-is_recursively_nested fuel left = (rw own refl, size_none fuel)
