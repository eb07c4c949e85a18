-- ===== src/Layout/Offsets.antt =====
-- The members of one structure: each within it, and no two on the same bytes.
use eddic.Prelude.{
  ℕ, ◌+◌, ◌≤◌, ◌<◌, ◌≡◌, sym, ap, ◌∙◌, arith, true, false, Option, some, List, [], ◌∷◌, Bool-cases,
  inl, inr, ◌⊎◌,
}
use mathlib.Core.Option.{some-injective, none-ne-some}
use eddic.Types.{SourceType, Name, name_eq}
use eddic.Types.Unique.{name-eq}
use eddic.Layout.{Member, wrap, offset_loop, size_loop, find_member}

-- The sum of the sizes of the members, as a number.
module _ (size_of : SourceType → Option ℕ) where
  abbrev pub HasSize : List Member → ℕ → Type 0
  HasSize [] e = e ≡ 0
  HasSize (m ∷ rest) e =
      (k : ℕ) × (r : ℕ) × (size_of m.type ≡ some k) × HasSize rest r × (e ≡ k + r)

  clash : (x m n : Name) → name_eq x m ≡ true → name_eq x n ≡ true → name_eq m n ≡ false → ⊥
  clash x m n h k d =
      let same : x ≡ m = name-eq x m h in
      let wrong : name_eq m n ≡ true = sym (ap (λ x. name_eq x n) same) ∙ k in cc

  wrapped : (a k : ℕ) → a + k < 0x1_0000_0000 → wrap (a + k) ≡ a + k
  wrapped a k l = omega arith

  pub size_loop-HasSize :
      (ms : List Member) (a e : ℕ)
      → HasSize ms e
      → a + e < 0x1_0000_0000
      → size_loop size_of ms a ≡ some (a + e)
  unfolding size_loop
  size_loop-HasSize [] a e h l = ap some (omega (arith, h))
  size_loop-HasSize (m ∷ rest) a e (k, r, size, h, total) l =
      rw (size, wrapped a k (omega (arith, l, total)))
        (size_loop-HasSize rest (a + k) r h (omega (arith, l, total))
          ∙ ap some (omega (arith, total)))

  -- a member at `o`, of `k` bytes
  pub record Occupies (ms : List Member) (n : Name) (a o k : ℕ) : Type 0 where
    pub type : SourceType
    pub found : find_member ms n ≡ some type
    pub sized : size_of type ≡ some k
    pub placed : offset_loop size_of ms n a ≡ some o

  Occupies-later :
      (m : Member) (rest : List Member) (n : Name) (a o k j : ℕ)
      → Occupies (m ∷ rest) n a o k
      → name_eq m.name n ≡ false
      → size_of m.type ≡ some j
      → a + j < 0x1_0000_0000
      → Occupies rest n (a + j) o k
  unfolding find_member offset_loop
  Occupies-later m rest n a o k j s other size l = record {
    type = s.type;
    found = rw other at s.found;
    sized = s.sized;
    placed = rw (other, size, wrapped a j l) at s.placed;
  }

  Occupies-here :
      (m : Member) (rest : List Member) (n : Name) (a o k j : ℕ)
      → Occupies (m ∷ rest) n a o k
      → name_eq m.name n ≡ true
      → size_of m.type ≡ some j
      → (a ≡ o) × (j ≡ k)
  unfolding find_member offset_loop
  Occupies-here m rest n a o k j s same size =
      let found : m.type ≡ s.type = some-injective m.type s.type (rw same at s.found) in
      (
        some-injective a o (rw same at s.placed),
        some-injective j k (sym size ∙ (ap size_of found ∙ s.sized)),
      )

  pub Occupies-bounds :
      (ms : List Member) (n : Name) (a e o k : ℕ)
      → HasSize ms e
      → a + e < 0x1_0000_0000
      → Occupies ms n a o k
      → (a ≤ o) × (o + k ≤ a + e)
  unfolding offset_loop
  Occupies-bounds [] n a e o k h l s = absurd (none-ne-some o s.placed)
  Occupies-bounds (m ∷ rest) n a e o k (j, r, size, h, total) l s =
      elim (Bool-cases (name_eq m.name n)) [
        | inl same ↦
            let (here, all) = Occupies-here m rest n a o k j s same size in
            (omega (arith, here), omega (arith, here, all, total))
        | inr other ↦
            let later = Occupies-later m rest n a o k j s other size (omega (arith, l, total)) in
            let (low, high) =
              Occupies-bounds rest n (a + j) r o k h (omega (arith, l, total)) later in
            (omega (arith, low), omega (arith, high, total))
      ]

  pub Occupies-apart :
      (ms : List Member) (m n : Name) (a e o k o' k' : ℕ)
      → HasSize ms e
      → a + e < 0x1_0000_0000
      → name_eq m n ≡ false
      → Occupies ms m a o k
      → Occupies ms n a o' k'
      → (o + k ≤ o') ⊎ (o' + k' ≤ o)
  unfolding offset_loop
  Occupies-apart [] m n a e o k o' k' h l d s t = absurd (none-ne-some o s.placed)
  Occupies-apart (x ∷ rest) m n a e o k o' k' (j, r, size, h, total) l d s t =
      let within : a + j + r < 0x1_0000_0000 = omega (arith, l, total) in
      let fits : a + j < 0x1_0000_0000 = omega (arith, within) in
      elim (Bool-cases (name_eq x.name m)) [
        | inl first ↦ elim (Bool-cases (name_eq x.name n)) [
          | inl second ↦ absurd (clash x.name m n first second d)
          | inr other ↦
              let (here, all) = Occupies-here x rest m a o k j s first size in
              let later = Occupies-later x rest n a o' k' j t other size fits in
              let (low, _) = Occupies-bounds rest n (a + j) r o' k' h within later in
              inl (omega (arith, here, all, low))
        ]
        | inr other ↦
            let later = Occupies-later x rest m a o k j s other size fits in
            elim (Bool-cases (name_eq x.name n)) [
              | inl second ↦
                  let (here, all) = Occupies-here x rest n a o' k' j t second size in
                  let (low, _) = Occupies-bounds rest m (a + j) r o k h within later in
                  inr (omega (arith, here, all, low))
              | inr other' ↦
                  Occupies-apart rest m n (a + j) r o k o' k' h within d later
                    (Occupies-later x rest n a o' k' j t other' size fits)
            ]
      ]
