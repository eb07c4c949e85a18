-- ===== src/Ltac/Allocation/Replace/Hard.antt =====
-- After replace_registers, a register that has a colour is named no more.
use eddic.Prelude.{
  ℕ, ◌≡◌, refl, sym, ap, ◌∙◌, arith, true, false, Option, none, some, List, [], ◌∷◌, ◌==◌, contains,
  ==_iff, Bool-cases, inl, inr,
}
use eddic.Ltac.Instruction.{
  AddressRegister, base_hard, base_pseudo, base_pseudo_float, base_float, Argument, float_register,
  register, pseudo_register, pseudo_float_register, address, literal, double, int, Instruction,
}
use eddic.Platform.{Platform}
use eddic.Ltac.Allocation.Graph.{PseudoRegister, gather_all, no_graph}
use eddic.Ltac.Allocation.Graph.Gathered.{
  numbers_of, gather_all-HasIndex, gather_all-IsIndexed, no_graph-IsIndexed,
}
use eddic.Ltac.Allocation.Simplify.{Doubles}
use eddic.Ltac.Allocation.Attempt.{
  RegisterClass, int_registers, float_registers, allocated, register_allocation,
}
use eddic.Ltac.Allocation.Attempt.Colored.{register_allocation-HasColor}
use eddic.Ltac.Allocation.Select.{Allocation}
use eddic.Ltac.Allocation.Spill.{contains_reg_addr, contains_reg}
use eddic.Ltac.Allocation.Spill.Gone.{AllFree}
use eddic.Ltac.Allocation.Replace.{
  hard_or, hard_address_or, update_reg, update, replace_registers, allocation_of_numbers,
}

module _ (allocation : Allocation) (r color : ℕ) (given : allocation r ≡ some color) where
  other_number : (x : ℕ) → allocation x ≡ none → (r == x) ≡ false
  other_number x free = elim (Bool-cases (r == x)) [
    | inl same ↦
        let clash : none ≡ some color =
          sym free ∙ (ap allocation (sym ((==_iff r x).0 same)) ∙ given) in
        cc
    | inr other ↦ other
  ]

  int_address :
      (x : ℕ) (o : Option ℕ)
      → allocation x ≡ o
      → contains_reg_addr int_registers (some (hard_address_or o base_hard (base_pseudo x))) r
        ≡ false
  int_address x none e = other_number x e
  int_address x (some y) e = refl

  float_address :
      (x : ℕ) (o : Option ℕ)
      → allocation x ≡ o
      → contains_reg_addr float_registers
          (some (hard_address_or o base_float (base_pseudo_float x)))
          r
        ≡ false
  float_address x none e = other_number x e
  float_address x (some y) e = refl

  int_argument :
      (x : ℕ) (o : Option ℕ)
      → allocation x ≡ o
      → contains_reg int_registers (some (hard_or o register (pseudo_register x))) r ≡ false
  int_argument x none e = other_number x e
  int_argument x (some y) e = refl

  float_argument :
      (x : ℕ) (o : Option ℕ)
      → allocation x ≡ o
      → contains_reg float_registers (some (hard_or o float_register (pseudo_float_register x))) r
        ≡ false
  float_argument x none e = other_number x e
  float_argument x (some y) e = refl

  update_reg_free :
      (c : RegisterClass) (a : Option AddressRegister)
      → contains_reg_addr c (update_reg c allocation a) r ≡ false
  update_reg_free int_registers none = refl
  update_reg_free int_registers (some (base_pseudo x)) = int_address x (allocation x) refl
  update_reg_free int_registers (some (base_hard x)) = refl
  update_reg_free int_registers (some (base_pseudo_float x)) = refl
  update_reg_free int_registers (some (base_float x)) = refl
  update_reg_free float_registers none = refl
  update_reg_free float_registers (some (base_pseudo x)) = refl
  update_reg_free float_registers (some (base_hard x)) = refl
  update_reg_free float_registers (some (base_pseudo_float x)) = float_address x (allocation x) refl
  update_reg_free float_registers (some (base_float x)) = refl

  update_free :
      (c : RegisterClass) (a : Option Argument) → contains_reg c (update c allocation a) r ≡ false
  update_free int_registers none = refl
  update_free int_registers (some (address a)) = ground (
    arith,
    update_reg_free int_registers a.base_register,
    update_reg_free int_registers a.scaled_register,
  )
  update_free int_registers (some (pseudo_register x)) = int_argument x (allocation x) refl
  update_free int_registers (some (pseudo_float_register x)) = refl
  update_free int_registers (some (register x)) = refl
  update_free int_registers (some (float_register x)) = refl
  update_free int_registers (some (literal x)) = refl
  update_free int_registers (some (double x)) = refl
  update_free int_registers (some (int x)) = refl
  update_free float_registers none = refl
  update_free float_registers (some (address a)) = ground (
    arith,
    update_reg_free float_registers a.base_register,
    update_reg_free float_registers a.scaled_register,
  )
  update_free float_registers (some (pseudo_register x)) = refl
  update_free float_registers (some (pseudo_float_register x)) =
      float_argument x (allocation x) refl
  update_free float_registers (some (register x)) = refl
  update_free float_registers (some (float_register x)) = refl
  update_free float_registers (some (literal x)) = refl
  update_free float_registers (some (double x)) = refl
  update_free float_registers (some (int x)) = refl

  replace_registers-AllFree :
      (c : RegisterClass) (block : List Instruction)
      → AllFree c r (replace_registers c allocation block)
  unfolding replace_registers
  replace_registers-AllFree c [] = tt
  replace_registers-AllFree c (i ∷ rest) = (
    ground (arith, update_free c i.arg1, update_free c i.arg2, update_free c i.arg3),
    replace_registers-AllFree c rest,
  )

-- Once a round of register allocation over gathered registers has given registers, and they have
-- replaced those of the graph, no instruction names a pseudo register that was gathered.
pub replace_registers-register_allocation :
    {D : Type 0} (d : Doubles D) (c : RegisterClass) (platform : Platform)
    (ps : List PseudoRegister) (lives : List (List ℕ)) (costs : List ℕ) (a : Allocation)
    (given : List ℕ) (r : ℕ) (block : List Instruction)
    → register_allocation d c platform (gather_all ps no_graph) lives costs
      ≡ some (allocated a given)
    → contains (numbers_of ps) r ≡ true
    → AllFree c r (replace_registers c (allocation_of_numbers (gather_all ps no_graph) a) block)
replace_registers-register_allocation d c platform ps lives costs a given r block h m =
    let g = gather_all ps no_graph in
    let (i, e) = gather_all-HasIndex ps no_graph r (inr m) in
    let (l, _) = (gather_all-IsIndexed ps no_graph no_graph-IsIndexed).registers r i e in
    let (color, k) = register_allocation-HasColor d c platform g lives costs a given i h l in
    replace_registers-AllFree (allocation_of_numbers g a) r color (rw e k) c block
