-- ===== src/Ltac/Copies/Agreement.antt =====
-- A map of copies that a machine agrees with, and what an instruction leaves of it.
use eddic.Prelude.{
  ℕ, ◌≡◌, ◌⊎◌, refl, sym, ap, ◌∙◌, Bool, true, false, Option, none, some, List, [], ◌∷◌, ◌==◌,
  Bool-cases, ==_iff, inl, inr, if◌then◌else◌,
}
use mathlib.Core.Option.{some-injective}
use eddic.Platform.{PlatformDescriptor}
use eddic.Ltac.Instruction.{Operator, Argument, Instruction, register}
use eddic.Ltac.Copies.{Copies, unless, remove_reg, remove_destination, remove_implicit, insert}
use eddic.Ltac.Machine.{Machine, Target, run, run_operator}
use eddic.Ltac.Peephole.Relate.{instr}
use eddic.Ltac.Constants.Writes.{names, IsNarrow, run-Untouched}

taken : (b : Bool) (u v : Option ℕ) → b ≡ true → u ≡ (if b then u else v)
taken b u v h = rw h refl

passed : (b : Bool) (u v : Option ℕ) → b ≡ false → v ≡ (if b then u else v)
passed b u v h = rw h refl

guarded :
    (b : Bool) (o : Option ℕ) {y : ℕ}
    → (if b then none else o) ≡ some y
    → (b ≡ false) × (o ≡ some y)
guarded true o h = cc
guarded false o h = (refl, h)

unless-some : (r y : ℕ) (o : Option ℕ) → unless r o ≡ some y → (o ≡ some y) × ((y == r) ≡ false)
unless-some r y none h = cc
unless-some r y (some z) h =
    let (apart, e) = guarded (z == r) (some z) h in
    (e, ap (λ z. z == r) (sym (some-injective z y e)) ∙ apart)

remove_reg-some :
    (r x y : ℕ) (c : Copies)
    → remove_reg r c x ≡ some y
    → (c x ≡ some y) × ((x == r) ≡ false) × ((y == r) ≡ false)
remove_reg-some r x y c h =
    let (apart, rest) = guarded (x == r) (unless r (c x)) h in
    let (e, other) = unless-some r y (c x) rest in (e, apart, other)

pub insert-some :
    (r s x y : ℕ) (c : Copies)
    → insert r s c x ≡ some y
    → ((x ≡ r) × (s ≡ y)) ⊎ (((x == r) ≡ false) × (c x ≡ some y))
insert-some r s x y c h = elim (Bool-cases (x == r)) [
  | inl same ↦
      inl ((==_iff x r).0 same, some-injective s y (taken (x == r) (some s) (c x) same ∙ h))
  | inr other ↦ inr (other, passed (x == r) (some s) (c x) other ∙ h)
]

module _ {M : Type 0} (t : Target M) (descriptor : PlatformDescriptor) where
  -- a copy holds what the register that it was made of holds
  abbrev pub Agree : Copies → Machine M → Type 0
  Agree c m = (r s : ℕ) → c r ≡ some s → m.registers r ≡ m.registers s

  -- Where the target says what an instruction does, it writes no register but its first argument, and
  -- a DIV the two of the platform.
  abbrev pub Writes : Operator → Instruction → Type 0
  Writes Operator.div i =
      (m n : Machine M) (r : ℕ)
      → t.other i m ≡ some n
      → names i.arg1 r ≡ false
      → (r == descriptor.a_register) ≡ false
      → (r == descriptor.d_register) ≡ false
      → n.registers r ≡ m.registers r
  Writes _ i = IsNarrow t i

  abbrev pub AreWrites : List Instruction → Type 0
  AreWrites [] = Unit
  AreWrites (i ∷ rest) = Writes i.op i × AreWrites rest

  -- Of a register that a MOV stores the value alone counts.
  abbrev pub StoresRegister : Type 0
  StoresRegister =
      (i : Instruction) (r s : ℕ) (m : Machine M)
      → i.op ≡ Operator.mov
      → m.registers r ≡ m.registers s
      → t.other (record i { arg2 = some (register s) }) m
        ≡ t.other (record i { arg2 = some (register r) }) m

  keep-Agree :
      (c : Copies) (m n : Machine M) (u : ℕ → Bool)
      → ((r s : ℕ) → c r ≡ some s → (u r ≡ false) × (u s ≡ false))
      → ((r : ℕ) → u r ≡ false → n.registers r ≡ m.registers r)
      → Agree c m
      → Agree c n
  keep-Agree c m n u spared same h r s e =
      let (hr, hs) = spared r s e in same r hr ∙ h r s e ∙ sym (same s hs)

  remove-Agree : (r : ℕ) (c : Copies) (m : Machine M) → Agree c m → Agree (remove_reg r c) m
  remove-Agree r c m h x y e = h x y (remove_reg-some r x y c e).0

  pub destination-Agree :
      (a : Option Argument) (c : Copies) (m : Machine M)
      → Agree c m
      → Agree (remove_destination a c) m
  unfolding remove_destination
  destination-Agree (some (register r)) c m h = remove-Agree r c m h
  destination-Agree a c m h = h

  spares :
      (a : Option Argument) (c : Copies) (r s : ℕ)
      → remove_destination a c r ≡ some s
      → (names a r ≡ false) × (names a s ≡ false)
  unfolding remove_destination
  spares (some (register x)) c r s e =
      let (_, apart, other) = remove_reg-some x r s c e in (apart, other)
  spares a c r s e = (refl, refl)

  -- what a step leaves known after the instruction
  pub step-Agree :
      (o : Operator) (i : Instruction) (a b : Option Argument) (c : Copies) (m n : Machine M)
      → Writes o (instr i o a b)
      → Agree c m
      → run t (instr i o a b) m ≡ some n
      → Agree (remove_implicit descriptor o (remove_destination a c)) n
  unfolding remove_implicit run run_operator
  step-Agree Operator.div i a b c m n w h k = λ x y known.
      let ar = descriptor.a_register in
      let dr = descriptor.d_register in
      let base = remove_destination a c in
      let (rest, xd, yd) = remove_reg-some dr x y (remove_reg ar base) known in
      let (left, xa, ya) = remove_reg-some ar x y base rest in
      let (xn, yn) = spares a c x y left in
      w m n x k xn xa xd ∙ destination-Agree a c m h x y left ∙ sym (w m n y k yn ya yd)
  step-Agree o i a b c m n w h k =
      keep-Agree (remove_destination a c) m n (names a) (spares a c)
        (run-Untouched t (instr i o a b) m n w k) (destination-Agree a c m h)

  pub insert-Agree :
      (r s : ℕ) (c : Copies) (n : Machine M)
      → n.registers r ≡ n.registers s
      → Agree c n
      → Agree (insert r s c) n
  insert-Agree r s c n e h x y k = elim (insert-some r s x y c k) [
    | inl (is_r, is_s) ↦ ap n.registers is_r ∙ e ∙ ap n.registers is_s
    | inr (_, rest) ↦ h x y rest
  ]
