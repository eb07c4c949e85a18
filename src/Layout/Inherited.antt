-- ===== src/Layout/Inherited.antt =====
-- The members of a structure and of its parents.
use eddic.Prelude.{
  ℕ, ◌+◌, ◌≤◌, ◌<◌, ◌≡◌, sym, ap, ◌∙◌, arith, false, Option, some, List, >>=-eq-some, inl, inr, ◌⊎◌,
}
use mathlib.Core.Option.{some-injective}
use eddic.Types.{SourceType, Name, name_eq}
use eddic.Platform.{Platform}
use eddic.Layout.{
  Struct, wrap, find_member, get_struct, offset_loop, member_offset, total_size_of_struct,
  member_loop, compute_member, size,
}
use eddic.Layout.Extent.{HasExtent, total_size-HasExtent}
use eddic.Layout.Placed.{IsAt, at_bounds, at_apart}

module _ (size_of : SourceType → Option ℕ) (structs : List Struct) where
  computed :
      (fuel : ℕ) (t : SourceType) (s : Struct) (n : Name) (o k e : ℕ) (type : SourceType)
      → compute_member size_of structs fuel t n ≡ some (o, type)
      → size_of type ≡ some k
      → get_struct structs t ≡ some s
      → HasExtent size_of structs fuel s e
      → e < 0x1_0000_0000
      → (b : ℕ) × (i : ℕ) × IsAt size_of structs fuel s n 0 b i k × (o ≡ wrap (b + i))
  unfolding compute_member member_offset
  computed fuel t s n o k e type h size found extent l =
      let (s', found', h1) = >>=-eq-some (get_struct structs t) _ h in
      let same : s' ≡ s = some-injective s' s (sym found' ∙ found) in
      let (at, reached, h2) = >>=-eq-some (member_loop size_of structs fuel s' n 0) _ h1 in
      let (type', has, h3) = >>=-eq-some (find_member at.1.members n) _ h2 in
      let (i, placed, h4) = >>=-eq-some (offset_loop size_of at.1.members n 0) _ h3 in
      let ends : ◌≡◌ {A = ℕ × SourceType} (wrap (at.0 + i), type') (o, type) =
        some-injective (wrap (at.0 + i), type') (o, type) h4 in
      (
        at.0,
        i,
        record {
          owner = at.1;
          reached = ap (λ s. member_loop size_of structs fuel s n 0) (sym same) ∙ reached;
          occupies = record {
            type = type';
            found = has;
            sized = ap size_of (ap (λ x. x.1) ends) ∙ size;
            placed = placed;
          };
        },
        ap (λ x. x.0) (sym ends),
      )

-- A member that compute_member finds, with its size, lies within the structure, whose size is the sum
-- of the sizes of all members of it and of its parents, if that is below 2 ^ 32.
pub compute_member-bounds :
    (structs : List Struct) (platform : Platform) (fuel depth : ℕ) (t : SourceType) (s : Struct)
    (n : Name) (o k e : ℕ) (type : SourceType)
    → compute_member (size structs platform fuel) structs depth t n ≡ some (o, type)
    → size structs platform fuel type ≡ some k
    → get_struct structs t ≡ some s
    → HasExtent (size structs platform fuel) structs depth s e
    → e < 0x1_0000_0000
    → (o + k ≤ e) × (total_size_of_struct (size structs platform fuel) structs depth s ≡ some e)
compute_member-bounds structs platform fuel depth t s n o k e type h sized found extent l =
    let size_of = size structs platform fuel in
    let (b, i, at, place) =
      computed size_of structs depth t s n o k e type h sized found extent l in
    let (_, high) = at_bounds size_of structs depth s e n 0 b i k extent (omega (arith, l)) at in
    (omega (arith, high, place, l), total_size-HasExtent size_of structs depth s e extent l)

-- Two members of different names that compute_member finds in one structure, or in its parents, share
-- no byte, if the size of the structure is below 2 ^ 32.
pub compute_member_apart :
    (structs : List Struct) (platform : Platform) (fuel depth : ℕ) (t : SourceType) (s : Struct)
    (m n : Name) (o k o' k' e : ℕ) (type type' : SourceType)
    → compute_member (size structs platform fuel) structs depth t m ≡ some (o, type)
    → size structs platform fuel type ≡ some k
    → compute_member (size structs platform fuel) structs depth t n ≡ some (o', type')
    → size structs platform fuel type' ≡ some k'
    → get_struct structs t ≡ some s
    → HasExtent (size structs platform fuel) structs depth s e
    → e < 0x1_0000_0000
    → name_eq m n ≡ false
    → (o + k ≤ o') ⊎ (o' + k' ≤ o)
compute_member_apart structs platform fuel depth t s m n o k o' k' e type type' h sized h' sized'
      found extent l differ =
    let size_of = size structs platform fuel in
    let (b, i, at, place) =
      computed size_of structs depth t s m o k e type h sized found extent l in
    let (b', i', at', place') =
      computed size_of structs depth t s n o' k' e type' h' sized' found extent l in
    let (_, high) = at_bounds size_of structs depth s e m 0 b i k extent (omega (arith, l)) at in
    let (_, high') =
      at_bounds size_of structs depth s e n 0 b' i' k' extent (omega (arith, l)) at' in
    let within : b + i < 0x1_0000_0000 = omega (arith, high, l) in
    let within' : b' + i' < 0x1_0000_0000 = omega (arith, high', l) in
    elim (at_apart size_of structs depth s e m n 0 b i k b' i' k' extent (omega (arith, l)) differ
      at at') [
        | inl before ↦ inl (omega (arith, before, place, place', within, within'))
        | inr after ↦ inr (omega (arith, after, place, place', within, within'))
      ]
