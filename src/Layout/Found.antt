-- ===== src/Layout/Found.antt =====
-- member_type at the offset of a member.
use eddic.Prelude.{
  ℕ, ◌+◌, ◌%◌, ◌∙◌, ◌≤◌, ◌<◌, ◌≡◌, ◌≢◌, arith, true, false, Option, none, some, List, [], ◌∷◌, leb,
  Bool-cases, inl, inr,
}
use mathlib.Core.Option.{some-injective, none-ne-some}
use eddic.Word.{less_eq}
use eddic.Types.{SourceType, Name, name_eq}
use eddic.Layout.{
  Member, Struct, wrap, find_member, offset_loop, member_offset, type_loop, member_type,
}
use eddic.Layout.Offsets.{HasSize}

less_eq-leb : (a b : ℕ) → a < 0x8000_0000 → b < 0x8000_0000 → less_eq a b ≡ leb a b
unfolding less_eq
less_eq-leb a b h k =
    let e : (a + 0x8000_0000) % 0x1_0000_0000 ≡ a + 0x8000_0000 = omega (arith, h) in
    let f : (b + 0x8000_0000) % 0x1_0000_0000 ≡ b + 0x8000_0000 = omega (arith, k) in
    rw (e, f) (ground arith)

module _ (size_of : SourceType → Option ℕ) where
  abbrev pub NoneEmpty : List Member → Type 0
  NoneEmpty [] = Unit
  NoneEmpty (m ∷ rest) = (size_of m.type ≢ some 0) × NoneEmpty rest

  type_loop-offset_loop :
      (ms : List Member) (n : Name) (a e o : ℕ) (last : Option SourceType) (type : SourceType)
      → HasSize size_of ms e
      → a + e < 0x8000_0000
      → NoneEmpty ms
      → find_member ms n ≡ some type
      → offset_loop size_of ms n a ≡ some o
      → (a ≤ o) × (o ≤ a + e) × (type_loop size_of ms o a last ≡ some type)
  unfolding type_loop offset_loop find_member
  type_loop-offset_loop [] n a e o last type h l full found place = absurd (none-ne-some o place)
  type_loop-offset_loop (m ∷ rest) n a e o last type (k, r, size, h, total) l (some_bytes, full)
        found place =
      let positive : 0 < k = ground (arith, some_bytes, size) in
      let fits : wrap (a + k) ≡ a + k = omega (arith, l, total) in
      elim (Bool-cases (name_eq m.name n)) [
        | inl same ↦
            let here : a ≡ o = some-injective a o (rw same at place) in
            let at : less_eq o a ≡ true =
              less_eq-leb o a (omega (arith, here, l)) (omega (arith, l)) ∙ ground (arith, here) in
            (omega (arith, here), omega (arith, here), rw at (rw same at found))
        | inr other ↦
            let (low, high, later) =
              type_loop-offset_loop rest n (a + k) r o (some m.type) type h
                (omega (arith, l, total)) full (rw other at found)
                (rw (other, size, fits) at place) in
            let after : less_eq o a ≡ false =
              less_eq-leb o a (omega (arith, high, total, l)) (omega (arith, l))
              ∙ ground (arith, low, positive) in
            (omega (arith, low), omega (arith, high, total), rw (after, size, fits) later)
      ]

  -- member_type gives the type of a member back from its offset, in a structure below 2 ^ 31 bytes
  -- that has no member of no bytes.
  pub member_type-member_offset :
      (s : Struct) (n : Name) (e o : ℕ) (type : SourceType)
      → HasSize size_of s.members e
      → e < 0x8000_0000
      → NoneEmpty s.members
      → find_member s.members n ≡ some type
      → member_offset size_of s n ≡ some o
      → member_type size_of s o ≡ some type
  unfolding member_type member_offset
  member_type-member_offset s n e o type h l full found place =
      (type_loop-offset_loop s.members n 0 e o none type h (omega (arith, l)) full found place).2
