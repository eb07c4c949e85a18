-- ===== src/Ltac/Constants/Holds.antt =====
-- A map of constants that a machine agrees with.
use eddic.Prelude.{
  ℕ, ◌≡◌, ◌≢◌, refl, ap, ◌∙◌, arith, true, false, Option, some, ◌==◌, Bool-cases, ==_iff, inl, inr,
  if◌then◌else◌,
}
use mathlib.Core.Option.{some-injective}
use eddic.Ltac.Instruction.{Argument, register}
use eddic.Ltac.Constants.{Constants, erase, insert, erase_constant}
use eddic.Ltac.Machine.{Machine, Target}
use eddic.Ltac.Constants.Writes.{Untouched}

pub here : (r v w : ℕ) → (if r == r then v else w) ≡ v
here r v w = ground arith

erase_same : (r x : ℕ) (c : Constants) {v : ℕ} → (x == r) ≡ true → erase r c x ≢ some v
erase_same r x c h e = ground arith

erase_else :
    (r x : ℕ) (c : Constants) {v : ℕ} → (x == r) ≡ false → erase r c x ≡ some v → c x ≡ some v
erase_else r x c h e = (rw h refl) ∙ e

insert_same :
    (r w x : ℕ) (c : Constants) {v : ℕ}
    → (x == r) ≡ true
    → insert r w c x ≡ some v
    → some w ≡ some v
insert_same r w x c h e = (rw h refl) ∙ e

insert_else :
    (r w x : ℕ) (c : Constants) {v : ℕ} → (x == r) ≡ false → insert r w c x ≡ some v → c x ≡ some v
insert_else r w x c h e = (rw h refl) ∙ e

module _ {M : Type 0} (t : Target M) where
  -- The constants are those that the registers hold.
  abbrev pub Holds : Constants → Machine M → Type 0
  Holds constants m = (r v : ℕ) → constants r ≡ some v → m.registers r ≡ v

  pub erase_lem :
      (a : Option Argument) (c : Constants) (m n : Machine M)
      → Untouched t a m n
      → Holds c m
      → Holds (erase_constant a c) n
  unfolding erase_constant
  erase_lem (some (register r)) c m n u h x v e = elim (Bool-cases (x == r)) [
    | inl same ↦ absurd (erase_same r x c same e)
    | inr other ↦ u x other ∙ h x v (erase_else r x c other e)
  ]
  erase_lem a c m n u h x v e = u x refl ∙ h x v e

  pub insert_lem :
      (r w : ℕ) (c : Constants) (n : Machine M)
      → n.registers r ≡ w
      → Holds c n
      → Holds (insert r w c) n
  insert_lem r w c n held h x v e = elim (Bool-cases (x == r)) [
    | inl same ↦
        ap n.registers ((==_iff x r).0 same)
        ∙ held
        ∙ some-injective w v (insert_same r w x c same e)
    | inr other ↦ h x v (insert_else r w x c other e)
  ]
