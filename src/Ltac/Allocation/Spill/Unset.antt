-- ===== src/Ltac/Allocation/Spill/Unset.antt =====
-- Whether the spill code of an instruction reads the new register before it is set.
use eddic.Prelude.{
  ℕ, ◌+◌, ◌^◌, ◌<◌, ◌≡◌, refl, ap, ◌∙◌, arith, Bool, true, false, ◌&&◌, ◌||◌, Option, none, some,
  List, [], ◌∷◌, if◌then◌else◌, Bool-cases, inl, inr,
}
use eddic.Ltac.Instruction.{Argument, Instruction}
use eddic.Ltac.Allocation.Attempt.{RegisterClass}
use eddic.Ltac.Allocation.Spill.{
  erase_result, erase_result_complete, contains_reg, is_destination, is_load, is_store_complete,
  is_store, replace_register, spill_load, spill_store, spill_instruction,
}
use eddic.Ltac.Allocation.Spill.Gone.{has_first, next_register, tested}
use eddic.Ltac.Allocation.Spill.Named.{
  is_target, sets, reads, reads_unset, argument_named, target_named, target-contains, after_load,
}

complete_by :
    (c : RegisterClass) (r : ℕ) (i : Instruction) (o : Option Argument) (complete t : Bool)
    → i.arg1 ≡ o
    → (if complete then is_destination c i r else some false) ≡ some t
    → (complete && is_target c o r) ≡ t
complete_by c r i o false t e h = cc
complete_by c r i none true t e h = let k = rw e at h in cc
complete_by c r i (some a) true t e h = let k = rw e at h in cc

complete-sets :
    (c : RegisterClass) (r : ℕ) (i : Instruction) (t : Bool)
    → is_store_complete c i r ≡ some t
    → sets c i r ≡ t
unfolding is_store_complete
complete-sets c r i t h = complete_by c r i i.arg1 (erase_result_complete i.op) t refl h

module _ (c : RegisterClass) (r n position : ℕ) (i : Instruction)
    (fresh : is_load c i n ≡ false) where
  fresh_first : contains_reg c i.arg1 n ≡ false
  fresh_first = ground (arith, fresh)

  fresh_second : contains_reg c i.arg2 n ≡ false
  fresh_second = ground (arith, fresh)

  fresh_third : contains_reg c i.arg3 n ≡ false
  fresh_third = ground (arith, fresh)

  -- No load goes before the instruction.
  unset_complete :
      sets c i r ≡ true
      → reads_unset c n (replace_register c r n i ∷ spill_store c n position ∷ [])
        ≡ (contains_reg c i.arg2 r || contains_reg c i.arg3 r)
  unset_complete h =
      let j = replace_register c r n i in
      let set : sets c j n ≡ true =
        ap (λ b. erase_result_complete i.op && b) (target_named r n c i.arg1 fresh_first) ∙ h in
      let second = argument_named r n c i.arg2 fresh_second in
      let third = argument_named r n c i.arg3 fresh_third in
      let read : reads c j n ≡ (contains_reg c i.arg2 r || contains_reg c i.arg3 r) =
        rw (set, second, third) refl in
      elim (Bool-cases (contains_reg c i.arg2 r || contains_reg c i.arg3 r)) [
        | inl yes' ↦ rw (read, yes') refl
        | inr no' ↦ rw (read, no', set) refl
      ]

  -- The instruction stays as it is.
  unset_idle : reads_unset c n (i ∷ []) ≡ false
  unset_idle =
      let unset : sets c i n ≡ false = ground (arith, target-contains r n c n i.arg1 fresh_first) in
      rw (unset, fresh) refl

-- What stands in the place of an instruction, and whether it reads the new register unset.
record IsCode (result : Option (List Instruction × ℕ)) (c : RegisterClass) (n : ℕ) (b : Bool)
    : Type 0 where
  code : List Instruction
  counter : ℕ
  returns : result ≡ some (code, counter)
  unset : reads_unset c n code ≡ b

IsCode-by :
    (c : RegisterClass) (r position current : ℕ) (i : Instruction) (complete store : Bool)
    → current + 1 < 2 ^ 16
    → is_load c i (current + 1) ≡ false
    → is_store_complete c i r ≡ some complete
    → is_store c i r ≡ some store
    → IsCode
        (spill_instruction c r position current i)
        c
        (current + 1)
        (complete && (contains_reg c i.arg2 r || contains_reg c i.arg3 r))
unfolding spill_instruction
IsCode-by c r position current i true store small fresh e k =
    let (one, two) = next_register current small in
    let n = current + 1 in
    record {
      code = replace_register c r n i ∷ spill_store c n position ∷ [];
      counter = n;
      returns = rw (e, k, one, two) refl;
      unset = unset_complete c r n position i fresh (complete-sets c r i true e);
    }
IsCode-by c r position current i false true small fresh e k =
    let (one, two) = next_register current small in
    let n = current + 1 in
    record {
      code = spill_load c n position ∷ replace_register c r n i ∷ spill_store c n position ∷ [];
      counter = n;
      returns = rw (e, k, one, two) refl;
      unset = after_load r n c position (replace_register c r n i ∷ spill_store c n position ∷ []);
    }
IsCode-by c r position current i false false small fresh e k =
    let (one, two) = next_register current small in
    let n = current + 1 in
    elim (Bool-cases (is_load c i r)) [
      | inl loads ↦ record {
        code = spill_load c n position ∷ replace_register c r n i ∷ [];
        counter = n;
        returns = rw (e, k, loads, one, two) refl;
        unset = after_load r n c position (replace_register c r n i ∷ []);
      }
      | inr idle ↦ record {
        code = i ∷ [];
        counter = current;
        returns = rw (e, k, idle) refl;
        unset = unset_idle c r n position i fresh;
      }
    ]

-- The spill code of an instruction is written, if the instruction has a first argument where it writes
-- one. Where the instruction does not name the new register, whose number is below 2 ^ 16, the code reads
-- that register before it is set exactly if the instruction writes the old register completely and has
-- it in its second or third argument too.
pub spill_instruction-reads_unset :
    (c : RegisterClass) (r position current : ℕ) (i : Instruction)
    → current + 1 < 2 ^ 16
    → has_first i ≡ true
    → is_load c i (current + 1) ≡ false
    → (code : List Instruction) × (last : ℕ) × (spill_instruction c r position current i
        ≡ some (code, last))
      × (reads_unset c (current + 1) code
          ≡ (sets c i r && (contains_reg c i.arg2 r || contains_reg c i.arg3 r)))
unfolding is_store_complete is_store
spill_instruction-reads_unset c r position current i small first fresh =
    let (complete, e) =
      tested (erase_result_complete i.op) i.arg1 c r i refl (ground (arith, first)) in
    let (store, k) = tested (erase_result i.op) i.arg1 c r i refl (ground (arith, first)) in
    let s = IsCode-by c r position current i complete store small fresh e k in
    (s.code, s.counter, s.returns, rw (complete-sets c r i complete e) s.unset)
