-- ===== src/Prelude/Distinct.antt =====
-- Lists of numbers with no number twice.
use Prim.Native.Nat.{ℕ, suc, ◌≤◌}
use mathlib.Core.Path.{◌≡◌, refl, sym, ap, ◌∙◌}
use mathlib.Core.Logic.{inl, inr}
use mathlib.Core.Bool.{Bool, true, false}
use mathlib.Core.List.{List, [], ◌∷◌}
use native.Mathlib.Omega.{arith}
use eddic.Prelude.Tests.{◌==◌, if◌then◌else◌, Bool-cases, ==_iff}
use eddic.Prelude.Lists.{length, contains, retain}

abbrev pub IsDistinct : List ℕ → Type 0
IsDistinct [] = Unit
IsDistinct (x ∷ xs) = (contains xs x ≡ false) × IsDistinct xs

-- without the first occurrence
remove : ℕ → List ℕ → List ℕ
remove a [] = []
remove a (x ∷ xs) = let rest = remove a xs in if a == x then xs else x ∷ rest

length-remove :
    (a : ℕ) (xs : List ℕ) → contains xs a ≡ true → length xs ≡ suc (length (remove a xs))
unfolding remove
length-remove a [] h = cc
length-remove a (x ∷ xs) h = elim (Bool-cases (a == x)) [
  | inl same ↦ rw same refl
  | inr other ↦ rw other (ap suc (length-remove a xs (rw other at h)))
]

contains-remove :
    (a c : ℕ) (xs : List ℕ)
    → (c == a) ≡ false
    → contains xs c ≡ true
    → contains (remove a xs) c ≡ true
unfolding remove
contains-remove a c [] h k = cc
contains-remove a c (x ∷ xs) h k = ground (arith, contains-remove a c xs)

-- Distinct numbers that all stand in a list are no more than its items.
pub length-le-of_contains :
    (xs ys : List ℕ)
    → IsDistinct xs
    → ((c : ℕ) → contains xs c ≡ true → contains ys c ≡ true)
    → length xs ≤ length ys
length-le-of_contains [] ys d h = omega arith
length-le-of_contains (x ∷ xs) ys d h =
    let here = h x (ground arith) in
    let others = length-le-of_contains xs (remove x ys) d.1 (λ c k. elim (Bool-cases (c == x)) [
      | inl same ↦
          let e : c ≡ x = (==_iff c x).0 same in
          let again : contains xs x ≡ true = sym (ap (contains xs) e) ∙ k in cc (d.0)
      | inr other ↦ contains-remove x c ys other (h c (rw other k))
    ]) in
    omega (arith, length-remove x ys here)

pub contains-retain :
    (p : ℕ → Bool) (xs : List ℕ) (a : ℕ)
    → contains (retain p xs) a ≡ (if p a then contains xs a else false)
contains-retain p [] a = ground arith
contains-retain p (x ∷ xs) a = elim (Bool-cases (a == x)) [
  | inl same ↦
      let e : p a ≡ p x = ap p ((==_iff a x).0 same) in ground (arith, contains-retain p xs a)
  | inr other ↦ ground (arith, contains-retain p xs a)
]

pub retain-IsDistinct : (p : ℕ → Bool) (xs : List ℕ) → IsDistinct xs → IsDistinct (retain p xs)
retain-IsDistinct p [] d = d
retain-IsDistinct p (x ∷ xs) d = elim (Bool-cases (p x)) [
  | inl passes ↦
      rw passes (contains-retain p xs x ∙ ground (arith, d.0), retain-IsDistinct p xs d.1)
  | inr fails ↦ rw fails (retain-IsDistinct p xs d.1)
]
