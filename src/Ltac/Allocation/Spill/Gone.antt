-- ===== src/Ltac/Allocation/Spill/Gone.antt =====
-- The spill code mentions the register no more.
use eddic.Prelude.{
  ℕ, ◌+◌, ◌%◌, ◌^◌, ◌<◌, length, ◌≤◌, ◌≡◌, refl, arith, Bool, true, false, ◌||◌, Option, none, some,
  List, [], ◌∷◌, ◌++◌, ◌==◌, if◌then◌else◌, Bool-cases, inl, inr,
}
use mathlib.Core.Bool.{not}
use eddic.Ltac.Instruction.{
  AddressRegister, Argument, float_register, register, pseudo_register, pseudo_float_register,
  address, literal, double, int, Instruction,
}
use eddic.Ltac.Allocation.Attempt.{RegisterClass, int_registers, float_registers}
use eddic.Ltac.Allocation.Spill.{
  erase_result, erase_result_complete, is_register, pseudo_of_address, pseudo_of_argument,
  pseudo_address, pseudo_argument, slot, contains_reg_addr, contains_reg, is_load, is_destination,
  is_store_complete, is_store, replace_reg_addr, replace_argument, replace_register, spill_load,
  spill_store, spill_instruction, spill_block,
}

module _ (c : RegisterClass) (r n : ℕ) (apart : (r == n) ≡ false) where
  new_address : (c : RegisterClass) → contains_reg_addr c (some (pseudo_address c n)) r ≡ false
  new_address int_registers = apart
  new_address float_registers = apart

  new_argument : (c : RegisterClass) → contains_reg c (some (pseudo_argument c n)) r ≡ false
  new_argument int_registers = apart
  new_argument float_registers = apart

  address_free :
      (a : Option AddressRegister) → contains_reg_addr c (replace_reg_addr c r n a) r ≡ false
  address_free none = refl
  address_free (some a) = elim (Bool-cases (is_register (pseudo_of_address c a) r)) [
    | inl here ↦ rw here (new_address c)
    | inr other ↦ rw other other
  ]

  if_free :
      (b : Bool) (x : Argument)
      → (b ≡ false → contains_reg c (some x) r ≡ false)
      → contains_reg c (if b then some (pseudo_argument c n) else some x) r ≡ false
  if_free true x h = new_argument c
  if_free false x h = h refl

  argument_free : (a : Option Argument) → contains_reg c (replace_argument c r n a) r ≡ false
  argument_free none = refl
  argument_free (some (address a)) =
      ground (arith, address_free a.base_register, address_free a.scaled_register)
  argument_free (some (register x)) =
      if_free (is_register (pseudo_of_argument c (register x)) r) (register x) (λ e. e)
  argument_free (some (float_register x)) =
      if_free (is_register (pseudo_of_argument c (float_register x)) r) (float_register x) (λ e. e)
  argument_free (some (pseudo_register x)) =
      if_free (is_register (pseudo_of_argument c (pseudo_register x)) r) (pseudo_register x)
        (λ e. e)
  argument_free (some (pseudo_float_register x)) =
      if_free (is_register (pseudo_of_argument c (pseudo_float_register x)) r)
        (pseudo_float_register x) (λ e. e)
  argument_free (some (literal x)) =
      if_free (is_register (pseudo_of_argument c (literal x)) r) (literal x) (λ e. e)
  argument_free (some (double x)) =
      if_free (is_register (pseudo_of_argument c (double x)) r) (double x) (λ e. e)
  argument_free (some (int x)) =
      if_free (is_register (pseudo_of_argument c (int x)) r) (int x) (λ e. e)

  replace_register_free : (i : Instruction) → is_load c (replace_register c r n i) r ≡ false
  replace_register_free i =
      ground (arith, argument_free i.arg1, argument_free i.arg2, argument_free i.arg3)

  slot_free : (c : RegisterClass) (position : ℕ) → contains_reg c (some (slot position)) r ≡ false
  slot_free int_registers position = refl
  slot_free float_registers position = refl

  load_free : (position : ℕ) → is_load c (spill_load c n position) r ≡ false
  load_free position = ground (arith, new_argument c, slot_free c position)

  store_free : (position : ℕ) → is_load c (spill_store c n position) r ≡ false
  store_free position = ground (arith, new_argument c, slot_free c position)

-- No instruction names the register.
abbrev pub AllFree : RegisterClass → ℕ → List Instruction → Type 0
AllFree c r [] = Unit
AllFree c r (i ∷ rest) = (is_load c i r ≡ false) × AllFree c r rest

AllFree-append :
    (c : RegisterClass) (r : ℕ) (xs ys : List Instruction)
    → AllFree c r xs
    → AllFree c r ys
    → AllFree c r (xs ++ ys)
AllFree-append c r [] ys h k = k
AllFree-append c r (x ∷ xs) ys h k = (h.0, AllFree-append c r xs ys h.1 k)

abbrev is_there : Option Argument → Bool
is_there none = false
is_there (some a) = true

-- Where an instruction writes its first argument, it has one.
abbrev pub has_first : Instruction → Bool
has_first i = not (erase_result i.op || erase_result_complete i.op) || is_there i.arg1

abbrev pub HaveFirst : List Instruction → Type 0
HaveFirst [] = Unit
HaveFirst (i ∷ rest) = (has_first i ≡ true) × HaveFirst rest

pub tested :
    (b : Bool) (o : Option Argument) (c : RegisterClass) (r : ℕ) (i : Instruction)
    → i.arg1 ≡ o
    → (not b || is_there o) ≡ true
    → (t : Bool) × ((if b then is_destination c i r else some false) ≡ some t)
tested false o c r i e h = (false, refl)
tested true none c r i e h = cc
tested true (some a) c r i e h = (is_register (pseudo_of_argument c a) r, rw e refl)

-- What stands in the place of an instruction.
record IsSpilled (c : RegisterClass) (r current : ℕ) (result : Option (List Instruction × ℕ))
    : Type 0 where
  code : List Instruction
  counter : ℕ
  returns : result ≡ some (code, counter)
  free : AllFree c r code
  grown : current ≤ counter
  bounded : counter ≤ current + 1

-- The next register, where its number fits.
pub next_register :
    (current : ℕ)
    → current + 1 < 2 ^ 16
    → ((current + 1) % 2 ^ 64 ≡ current + 1) × ((current + 1) % 2 ^ 16 ≡ current + 1)
next_register current h = (omega (arith, h), omega (arith, h))

IsSpilled-by :
    (c : RegisterClass) (r position current : ℕ) (i : Instruction) (complete store : Bool)
    → r ≤ current
    → current + 1 < 2 ^ 16
    → is_store_complete c i r ≡ some complete
    → is_store c i r ≡ some store
    → IsSpilled c r current (spill_instruction c r position current i)
unfolding spill_instruction
IsSpilled-by c r position current i true store l small e k =
    let (one, two) = next_register current small in
    let apart : (r == current + 1) ≡ false = ground (arith, l) in
    record {
      code = replace_register c r (current + 1) i ∷ spill_store c (current + 1) position ∷ [];
      counter = current + 1;
      returns = rw (e, k, one, two) refl;
      free = (
        replace_register_free c r (current + 1) apart i,
        (store_free c r (current + 1) apart position, tt),
      );
      grown = omega arith;
      bounded = omega arith;
    }
IsSpilled-by c r position current i false true l small e k =
    let (one, two) = next_register current small in
    let n = current + 1 in
    let apart : (r == n) ≡ false = ground (arith, l) in
    record {
      code = spill_load c n position ∷ replace_register c r n i ∷ spill_store c n position ∷ [];
      counter = n;
      returns = rw (e, k, one, two) refl;
      free = (
        load_free c r n apart position,
        (replace_register_free c r n apart i, (store_free c r n apart position, tt)),
      );
      grown = omega arith;
      bounded = omega arith;
    }
IsSpilled-by c r position current i false false l small e k =
    let (one, two) = next_register current small in
    elim (Bool-cases (is_load c i r)) [
      | inl loads ↦
          let n = current + 1 in
          let apart : (r == n) ≡ false = ground (arith, l) in
          record {
            code = spill_load c n position ∷ replace_register c r n i ∷ [];
            counter = n;
            returns = rw (e, k, loads, one, two) refl;
            free = (load_free c r n apart position, (replace_register_free c r n apart i, tt));
            grown = omega arith;
            bounded = omega arith;
          }
      | inr idle ↦ record {
        code = i ∷ [];
        counter = current;
        returns = rw (e, k, idle) refl;
        free = (idle, tt);
        grown = omega arith;
        bounded = omega arith;
      }
    ]

spill_instruction-IsSpilled :
    (c : RegisterClass) (r position current : ℕ) (i : Instruction)
    → r ≤ current
    → current + 1 < 2 ^ 16
    → has_first i ≡ true
    → IsSpilled c r current (spill_instruction c r position current i)
unfolding is_store_complete is_store
spill_instruction-IsSpilled c r position current i l small first =
    let (complete, e) =
      tested (erase_result_complete i.op) i.arg1 c r i refl (ground (arith, first)) in
    let (store, k) = tested (erase_result i.op) i.arg1 c r i refl (ground (arith, first)) in
    IsSpilled-by c r position current i complete store l small e k

-- The spill code of a register in a block is written, if every instruction of the block that writes
-- its first argument has one, and no instruction names the register any more. The number of the
-- register is not above `current`, and the numbers of the new ones, at most one for every instruction,
-- are below 2 ^ 16.
pub spill_block-AllFree :
    (c : RegisterClass) (r position : ℕ) (block : List Instruction) (current : ℕ)
    → r ≤ current
    → current + length block < 2 ^ 16
    → HaveFirst block
    → (code : List Instruction) × (last : ℕ) × (spill_block c r position block current
        ≡ some (code, last))
      × AllFree c r code
unfolding spill_block
spill_block-AllFree c r position [] current l small h = ([], current, refl, tt)
spill_block-AllFree c r position (i ∷ rest) current l small (first, h) =
    let s = spill_instruction-IsSpilled c r position current i l (omega (arith, small)) first in
    let (code, last, returns, free) =
      spill_block-AllFree c r position rest s.counter (omega (arith, l, s.grown))
        (omega (arith, small, s.bounded)) h in
    (s.code ++ code, last, rw (s.returns, returns) refl, AllFree-append c r s.code code s.free free)
