-- ===== src/Ltac/Allocation/Spill/Named.antt =====
-- The new register stands where the old one stood, and what reads a register that is not set.
use eddic.Prelude.{
  ℕ, ◌≡◌, refl, arith, Bool, true, false, ◌&&◌, ◌||◌, Option, none, some, List, [], ◌∷◌,
  if◌then◌else◌, Bool-cases, inl, inr, ==_iff,
}
use eddic.Ltac.Instruction.{
  AddressRegister, Argument, float_register, register, pseudo_register, pseudo_float_register,
  address, literal, double, int, Instruction,
}
use eddic.Ltac.Allocation.Attempt.{RegisterClass, int_registers, float_registers}
use eddic.Ltac.Allocation.Spill.{
  erase_result_complete, is_register, pseudo_of_address, pseudo_of_argument, contains_reg_addr,
  contains_reg, is_load, replace_reg_addr, replace_argument, spill_load, pseudo_argument,
  pseudo_address,
}

abbrev pub is_target : RegisterClass → Option Argument → ℕ → Bool
is_target c none n = false
is_target c (some a) n = is_register (pseudo_of_argument c a) n

-- An instruction writes the whole register, whatever was in it.
abbrev pub sets : RegisterClass → Instruction → ℕ → Bool
sets c i n = erase_result_complete i.op && is_target c i.arg1 n

-- The register is an operand, other than the first one where that is only written.
abbrev pub reads : RegisterClass → Instruction → ℕ → Bool
reads c i n =
    if sets c i n then contains_reg c i.arg2 n || contains_reg c i.arg3 n else is_load c i n

-- Some instruction reads the register, and none before it has set it.
abbrev pub reads_unset : RegisterClass → ℕ → List Instruction → Bool
reads_unset c n [] = false
reads_unset c n (i ∷ rest) =
    let later = reads_unset c n rest in
    if reads c i n then true else if sets c i n then false else later

module _ (r n : ℕ) where
  address_named :
      (c : RegisterClass) (a : Option AddressRegister)
      → contains_reg_addr c a n ≡ false
      → contains_reg_addr c (replace_reg_addr c r n a) n ≡ contains_reg_addr c a r
  address_named c none h = refl
  address_named c (some a) h = elim (Bool-cases (is_register (pseudo_of_address c a) r)) [
    | inl here ↦ rw here (new_address c)
    | inr other ↦ rw other h
  ]
    where
      new_address : (c : RegisterClass) → contains_reg_addr c (some (pseudo_address c n)) n ≡ true
      new_address int_registers = (==_iff n n).1 refl
      new_address float_registers = (==_iff n n).1 refl

  new_contained : (c : RegisterClass) → contains_reg c (some (pseudo_argument c n)) n ≡ true
  new_contained int_registers = (==_iff n n).1 refl
  new_contained float_registers = (==_iff n n).1 refl

  new_target : (c : RegisterClass) → is_target c (some (pseudo_argument c n)) n ≡ true
  new_target int_registers = (==_iff n n).1 refl
  new_target float_registers = (==_iff n n).1 refl

  target_of :
      (c : RegisterClass) (b : Bool) (x : Argument)
      → is_target c (some x) n ≡ false
      → is_target c (if b then some (pseudo_argument c n) else some x) n ≡ b
  target_of c true x h = new_target c
  target_of c false x h = h

  contained_of :
      (c : RegisterClass) (b : Bool) (x : Argument)
      → contains_reg c (some x) n ≡ false
      → contains_reg c (if b then some (pseudo_argument c n) else some x) n ≡ b
  contained_of c true x h = new_contained c
  contained_of c false x h = h

  -- The new register stands where the old one stood.
  pub argument_named :
      (c : RegisterClass) (a : Option Argument)
      → contains_reg c a n ≡ false
      → contains_reg c (replace_argument c r n a) n ≡ contains_reg c a r
  argument_named c none h = refl
  argument_named c (some (address a)) h =
      let base : contains_reg_addr c a.base_register n ≡ false = ground (arith, h) in
      let index : contains_reg_addr c a.scaled_register n ≡ false = ground (arith, h) in
      rw (address_named c a.base_register base, address_named c a.scaled_register index) refl
  argument_named c (some (register x)) h = contained_of c _ (register x) h
  argument_named c (some (float_register x)) h = contained_of c _ (float_register x) h
  argument_named c (some (pseudo_register x)) h = contained_of c _ (pseudo_register x) h
  argument_named c (some (pseudo_float_register x)) h = contained_of c _ (pseudo_float_register x) h
  argument_named c (some (literal x)) h = contained_of c _ (literal x) h
  argument_named c (some (double x)) h = contained_of c _ (double x) h
  argument_named c (some (int x)) h = contained_of c _ (int x) h

  pub target-contains :
      (c : RegisterClass) (m : ℕ) (a : Option Argument)
      → contains_reg c a m ≡ false
      → is_target c a m ≡ false
  target-contains c m none h = refl
  target-contains int_registers m (some (address a)) h = refl
  target-contains float_registers m (some (address a)) h = refl
  target-contains c m (some (register x)) h = h
  target-contains c m (some (float_register x)) h = h
  target-contains c m (some (pseudo_register x)) h = h
  target-contains c m (some (pseudo_float_register x)) h = h
  target-contains c m (some (literal x)) h = h
  target-contains c m (some (double x)) h = h
  target-contains c m (some (int x)) h = h

  pub target_named :
      (c : RegisterClass) (a : Option Argument)
      → contains_reg c a n ≡ false
      → is_target c (replace_argument c r n a) n ≡ is_target c a r
  target_named c none h = refl
  target_named int_registers (some (address a)) h = refl
  target_named float_registers (some (address a)) h = refl
  target_named c (some (register x)) h = target_of c _ (register x) h
  target_named c (some (float_register x)) h = target_of c _ (float_register x) h
  target_named c (some (pseudo_register x)) h = target_of c _ (pseudo_register x) h
  target_named c (some (pseudo_float_register x)) h = target_of c _ (pseudo_float_register x) h
  target_named c (some (literal x)) h = target_of c _ (literal x) h
  target_named c (some (double x)) h = target_of c _ (double x) h
  target_named c (some (int x)) h = target_of c _ (int x) h

  load-sets :
      (c : RegisterClass) (position : ℕ)
      → (sets c (spill_load c n position) n ≡ true) × (reads c (spill_load c n position) n ≡ false)
  unfolding erase_result_complete
  load-sets int_registers position = let e = (==_iff n n).1 refl in (e, rw e refl)
  load-sets float_registers position = let e = (==_iff n n).1 refl in (e, rw e refl)

  -- A register that has been set is not read unset.
  pub after_load :
      (c : RegisterClass) (position : ℕ) (rest : List Instruction)
      → reads_unset c n (spill_load c n position ∷ rest) ≡ false
  after_load c position rest = let (set, unread) = load-sets c position in rw (unread, set) refl
