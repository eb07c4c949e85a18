-- ===== src/Layout/Extent.antt =====
-- The size of a structure with its parents.
use eddic.Prelude.{ℕ, suc, ◌+◌, ◌≤◌, ◌<◌, ◌≡◌, sym, ap, ◌∙◌, arith, Option, none, some, List}
use mathlib.Core.Option.{some-injective}
use eddic.Types.{SourceType}
use eddic.Layout.{Struct, wrap, get_struct, self_size_of_struct, total_loop, total_size_of_struct}
use eddic.Layout.Offsets.{HasSize, size_loop-HasSize}

module _ (size_of : SourceType → Option ℕ) (structs : List Struct) where
  -- The structure has no more parents than the fuel, and all its members and theirs are of `e` bytes.
  pub data HasExtent : ℕ → Struct → ℕ → Type 0 where
    root :
        (fuel : ℕ) (s : Struct) (k : ℕ)
        → s.parent_type ≡ none
        → HasSize size_of s.members k
        → HasExtent fuel s k
    derived :
        (fuel : ℕ) (s p : Struct) (t : SourceType) (k r : ℕ)
        → s.parent_type ≡ some t
        → get_struct structs t ≡ some p
        → HasSize size_of s.members k
        → HasExtent fuel p r
        → HasExtent (suc fuel) s (k + r)

  pub self_size-HasSize :
      (s : Struct) (k : ℕ)
      → HasSize size_of s.members k
      → k < 0x1_0000_0000
      → self_size_of_struct size_of s ≡ some k
  unfolding self_size_of_struct
  self_size-HasSize s k h l =
      size_loop-HasSize size_of s.members 0 k h (omega (arith, l)) ∙ ap some (omega arith)

  pub wrapped : (a k : ℕ) → a + k < 0x1_0000_0000 → wrap (a + k) ≡ a + k
  wrapped a k l = omega arith

  self_size-HasExtent :
      (fuel : ℕ) (s : Struct) (e : ℕ)
      → HasExtent fuel s e
      → e < 0x1_0000_0000
      → (k : ℕ) × (self_size_of_struct size_of s ≡ some k) × (k ≤ e)
  self_size-HasExtent _ _ _ (root fuel s k alone h) l = (k, self_size-HasSize s k h l, omega arith)
  self_size-HasExtent _ _ _ (derived fuel s p t k r up found h rest) l =
      (k, self_size-HasSize s k h (omega (arith, l)), omega arith)

  total_loop-HasExtent :
      (fuel : ℕ) (s : Struct) (e a k : ℕ)
      → HasExtent fuel s e
      → a + e < 0x1_0000_0000
      → self_size_of_struct size_of s ≡ some k
      → total_loop size_of structs fuel s.parent_type (a + k) ≡ some (a + e)
  unfolding total_loop
  total_loop-HasExtent _ _ _ a k (root fuel s e alone h) l size =
      let same : e ≡ k =
        some-injective e k (sym (self_size-HasSize s e h (omega (arith, l))) ∙ size) in
      rw alone (ap some (omega (arith, same)))
  total_loop-HasExtent _ _ _ a k (derived fuel s p t j r up found h rest) l size =
      let same : j ≡ k =
        some-injective j k (sym (self_size-HasSize s j h (omega (arith, l))) ∙ size) in
      let (i, inner, low) = self_size-HasExtent fuel p r rest (omega (arith, l)) in
      rw (up, found, inner, wrapped (a + k) i (omega (arith, l, low, same)))
        (total_loop-HasExtent fuel p r (a + k) i rest (omega (arith, l, same)) inner
          ∙ ap some (omega (arith, same)))

  -- The size that total_size_of_struct gives, where it does not overflow.
  pub total_size-HasExtent :
      (fuel : ℕ) (s : Struct) (e : ℕ)
      → HasExtent fuel s e
      → e < 0x1_0000_0000
      → total_size_of_struct size_of structs fuel s ≡ some e
  unfolding total_size_of_struct
  total_size-HasExtent fuel s e h l =
      let (k, size, low) = self_size-HasExtent fuel s e h l in
      rw size (
        ap (total_loop size_of structs fuel s.parent_type) (omega arith)
        ∙ (total_loop-HasExtent fuel s e 0 k h (omega (arith, l)) size ∙ ap some (omega arith)))
