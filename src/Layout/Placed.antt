-- ===== src/Layout/Placed.antt =====
-- Where the loop of compute_member finds a member.
use eddic.Prelude.{
  ℕ, zero, suc, ◌+◌, ◌≤◌, ◌<◌, ◌≡◌, sym, ap, ◌∙◌, arith, true, false, Option, none, some, List,
  Bool-cases, >>=-eq-some, inl, inr, ◌⊎◌,
}
use mathlib.Core.Option.{some-injective, none-ne-some}
use mathlib.Core.Path.{subst}
use eddic.Types.{SourceType, Name, name_eq}
use eddic.Layout.{Struct, member_exists, get_struct, self_size_of_struct, member_loop, size}
use eddic.Layout.Extent.{HasExtent, root, derived, wrapped, self_size-HasSize}
use eddic.Layout.Offsets.{HasSize, Occupies, Occupies-bounds, Occupies-apart}

module _ (size_of : SourceType → Option ℕ) (structs : List Struct) where
  -- The member that member_loop finds in `owner`, whose own members start at `b`.
  pub record IsAt (fuel : ℕ) (s : Struct) (n : Name) (a b o k : ℕ) : Type 0 where
    pub owner : Struct
    pub reached : member_loop size_of structs fuel s n a ≡ some (b, owner)
    pub occupies : Occupies size_of owner.members n 0 o k

  at_self :
      (s : Struct) (n : Name) (a b o k : ℕ) (owner : Struct)
      → Occupies size_of owner.members n 0 o k
      → ◌≡◌ {A = Option (ℕ × Struct)} (some (a, s)) (some (b, owner))
      → (a ≡ b) × Occupies size_of s.members n 0 o k
  at_self s n a b o k owner own e =
      let same = some-injective (a, s) (b, owner) e in
      (ap (λ x. x.0) same, subst (λ x. Occupies size_of x.1.members n 0 o k) (sym same) own)

  at_here :
      (fuel : ℕ) (s : Struct) (n : Name) (a b o k : ℕ)
      → IsAt fuel s n a b o k
      → member_exists s.members n ≡ true
      → (a ≡ b) × Occupies size_of s.members n 0 o k
  unfolding member_loop
  at_here zero s n a b o k h here = at_self s n a b o k h.owner h.occupies (rw here at h.reached)
  at_here (suc fuel) s n a b o k h here =
      at_self s n a b o k h.owner h.occupies (rw here at h.reached)

  at_none :
      (fuel : ℕ) (s : Struct) (n : Name) (a b o k : ℕ)
      → IsAt fuel s n a b o k
      → member_exists s.members n ≡ false
      → s.parent_type ≡ none
      → ⊥
  unfolding member_loop
  at_none zero s n a b o k h out alone = none-ne-some (b, h.owner) (rw out at h.reached)
  at_none (suc fuel) s n a b o k h out alone =
      let (j, _, later) = >>=-eq-some (self_size_of_struct size_of s) _ (rw out at h.reached) in
      let (t, up, _) = >>=-eq-some s.parent_type _ later in none-ne-some t (sym alone ∙ up)

  IsAt-later :
      (fuel : ℕ) (s p : Struct) (t : SourceType) (n : Name) (a b o k j : ℕ)
      → IsAt (suc fuel) s n a b o k
      → member_exists s.members n ≡ false
      → s.parent_type ≡ some t
      → get_struct structs t ≡ some p
      → self_size_of_struct size_of s ≡ some j
      → a + j < 0x1_0000_0000
      → IsAt fuel p n (a + j) b o k
  unfolding member_loop
  IsAt-later fuel s p t n a b o k j h out up found size l = record {
    owner = h.owner;
    reached = rw (out, size, up, found, wrapped size_of structs a j l) at h.reached;
    occupies = h.occupies;
  }

  pub at_bounds :
      (fuel : ℕ) (s : Struct) (e : ℕ) (n : Name) (a b o k : ℕ)
      → HasExtent size_of structs fuel s e
      → a + e < 0x1_0000_0000
      → IsAt fuel s n a b o k
      → (a ≤ b + o) × (b + o + k ≤ a + e)
  at_bounds _ _ _ n a b o k (root fuel s e alone h) l at =
      elim (Bool-cases (member_exists s.members n)) [
        | inl here ↦
            let (same, own) = at_here fuel s n a b o k at here in
            let (low, high) =
              Occupies-bounds size_of s.members n 0 e o k h (omega (arith, l)) own in
            (omega (arith, same), omega (arith, same, high))
        | inr out ↦ absurd (at_none fuel s n a b o k at out alone)
      ]
  at_bounds _ _ _ n a b o k (derived fuel s p t j r up found h rest) l at =
      elim (Bool-cases (member_exists s.members n)) [
        | inl here ↦
            let (same, own) = at_here (suc fuel) s n a b o k at here in
            let (low, high) =
              Occupies-bounds size_of s.members n 0 j o k h (omega (arith, l)) own in
            (omega (arith, same), omega (arith, same, high))
        | inr out ↦
            let size = self_size-HasSize size_of structs s j h (omega (arith, l)) in
            let (low, high) =
              at_bounds fuel p r n (a + j) b o k rest (omega (arith, l))
                (IsAt-later fuel s p t n a b o k j at out up found size (omega (arith, l))) in
            (omega (arith, low), omega (arith, high))
      ]

  both_here :
      (s : Struct) (e : ℕ) (m n : Name) (a b o k b' o' k' : ℕ)
      → HasSize size_of s.members e
      → e < 0x1_0000_0000
      → name_eq m n ≡ false
      → (a ≡ b) × Occupies size_of s.members m 0 o k
      → (a ≡ b') × Occupies size_of s.members n 0 o' k'
      → (b + o + k ≤ b' + o') ⊎ (b' + o' + k' ≤ b + o)
  both_here s e m n a b o k b' o' k' h l differ (same, own) (same', own') =
      elim (Occupies-apart size_of s.members m n 0 e o k o' k' h (omega (arith, l)) differ own
        own') [
          | inl before ↦ inl (omega (arith, before, same, same'))
          | inr after ↦ inr (omega (arith, after, same, same'))
        ]

  pub at_apart :
      (fuel : ℕ) (s : Struct) (e : ℕ) (m n : Name) (a b o k b' o' k' : ℕ)
      → HasExtent size_of structs fuel s e
      → a + e < 0x1_0000_0000
      → name_eq m n ≡ false
      → IsAt fuel s m a b o k
      → IsAt fuel s n a b' o' k'
      → (b + o + k ≤ b' + o') ⊎ (b' + o' + k' ≤ b + o)
  at_apart _ _ _ m n a b o k b' o' k' (root fuel s e alone h) l differ at at' =
      elim (Bool-cases (member_exists s.members m)) [
        | inl here ↦ elim (Bool-cases (member_exists s.members n)) [
          | inl here' ↦
              both_here s e m n a b o k b' o' k' h (omega (arith, l)) differ
                (at_here fuel s m a b o k at here) (at_here fuel s n a b' o' k' at' here')
          | inr out ↦ absurd (at_none fuel s n a b' o' k' at' out alone)
        ]
        | inr out ↦ absurd (at_none fuel s m a b o k at out alone)
      ]
  at_apart _ _ _ m n a b o k b' o' k' (derived fuel s p t j r up found h rest) l differ at at' =
      let size = self_size-HasSize size_of structs s j h (omega (arith, l)) in
      let fits : a + j < 0x1_0000_0000 = omega (arith, l) in
      let within : a + j + r < 0x1_0000_0000 = omega (arith, l) in
      elim (Bool-cases (member_exists s.members m)) [
        | inl here ↦
            let (same, own) = at_here (suc fuel) s m a b o k at here in
            elim (Bool-cases (member_exists s.members n)) [
              | inl here' ↦
                  both_here s j m n a b o k b' o' k' h (omega (arith, l)) differ (same, own)
                    (at_here (suc fuel) s n a b' o' k' at' here')
              | inr out ↦
                  let (_, high) =
                    Occupies-bounds size_of s.members m 0 j o k h (omega (arith, l)) own in
                  let (low, _) =
                    at_bounds fuel p r n (a + j) b' o' k' rest within
                      (IsAt-later fuel s p t n a b' o' k' j at' out up found size fits) in
                  inl (omega (arith, same, high, low))
            ]
        | inr out ↦
            let later = IsAt-later fuel s p t m a b o k j at out up found size fits in
            elim (Bool-cases (member_exists s.members n)) [
              | inl here' ↦
                  let (same, own) = at_here (suc fuel) s n a b' o' k' at' here' in
                  let (_, high) =
                    Occupies-bounds size_of s.members n 0 j o' k' h (omega (arith, l)) own in
                  let (low, _) = at_bounds fuel p r m (a + j) b o k rest within later in
                  inr (omega (arith, same, high, low))
              | inr out' ↦
                  at_apart fuel p r m n (a + j) b o k b' o' k' rest within differ later
                    (IsAt-later fuel s p t n a b' o' k' j at' out' up found size fits)
            ]
      ]
