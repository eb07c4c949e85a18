-- ===== src/Ltac/Peephole/Addresses.antt =====
-- LEA of an address that is a register alone.
use eddic.Prelude.{ℕ, ◌≡◌, refl, arith, true, Option, none, some}
use Prim.Native.String.{String}
use eddic.Word.Laws.{zero_mul_lem}
use eddic.Word.{minus_one}
use eddic.Mtac.Quadruple.{Size, default}
use eddic.Word
use eddic.Ltac.Instruction.{
  Operator, Argument, Instruction, AddressRegister, register, address, pseudo_register, base_hard,
  base_pseudo, of_address_register,
}
use eddic.Ltac.Peephole.{optimize_address, optimize_lea}
use eddic.Ltac.Machine.{
  Machine, Target, run, run_operator, move, load_address, effective, or_else, IsWords, Agrees,
}
use eddic.Ltac.Peephole.Relate.{instr, same, puts, RunsAs, of_some, under}

base_value :
    (a x y : ℕ) → Word.IsWord a → y ≡ 0 → Word.add (Word.add a (Word.mul 0 x)) (Word.add y 0) ≡ a
unfolding Word.add
base_value a x y h e = rw (zero_mul_lem x) (omega arith)

-- The address of an LEA has no label beside a base register.
abbrev pub IsPlainAddress : Size → Option AddressRegister → Option String → Type 0
IsPlainAddress size (some b) (some s) = ⊥
IsPlainAddress size b s = size ≡ default

abbrev pub IsPlainArgument : Size → Option Argument → Type 0
IsPlainArgument size (some (address a)) = IsPlainAddress size a.base_register a.absolute
IsPlainArgument size _ = Unit

module _ {M : Type 0} (t : Target M) where
  -- LEA of a register
  base_lem :
      (i : Instruction) (r : ℕ) (base : AddressRegister) (scale : Option ℕ) (shift : Option ℕ)
      (m n : Machine M)
      → IsWords m
      → i.size ≡ default
      → or_else 0 shift ≡ 0
      → run t
          (instr i Operator.lea (some (register r)) (
            some (
              address (record {
                base_register = some base;
                scaled_register = none;
                scale = scale;
                displacement = shift;
                absolute = none;
              }))))
          m
        ≡ some n
      → RunsAs t Agrees
          (some (
            record i {
              op = Operator.mov;
              arg1 = some (register r);
              arg2 = some (of_address_register base);
            },
            true,
          ))
          m
          n
  unfolding run run_operator load_address effective move Word.add Word.mul
  base_lem i r (base_hard s) scale shift m n w d e k =
      of_some t Agrees
        (some (
          record i { op = Operator.mov; arg1 = some (register r); arg2 = some (register s) },
          true,
        ))
        m k
        (
          _,
          rw d refl,
          puts r _ _ m (base_value (m.registers s) (or_else 1 scale) (or_else 0 shift) (w s).0 e),
        )
  base_lem i r (base_pseudo s) scale shift m n w d e k =
      of_some t Agrees
        (some (
          record i { op = Operator.mov; arg1 = some (register r); arg2 = some (pseudo_register s) },
          true,
        ))
        m k
        (
          _,
          rw d refl,
          puts r _ _ m
              (base_value (m.pseudo_registers s) (or_else 1 scale) (or_else 0 shift) (w s).1 e),
        )
  base_lem i r base scale shift m n w d e k = cc

  lea_runs :
      (i : Instruction) (r : ℕ) (base scaled : Option AddressRegister) (scale shift : Option ℕ)
      (absolute : Option String) (m n : Machine M)
      → IsWords m
      → IsPlainAddress i.size base absolute
      → run t
          (instr i Operator.lea (some (register r)) (
            some (
              address (record {
                base_register = base;
                scaled_register = scaled;
                scale = scale;
                displacement = shift;
                absolute = absolute;
              }))))
          m
        ≡ some n
      → RunsAs t Agrees
          (optimize_address
            (instr i Operator.lea (some (register r)) (
              some (
                address (record {
                  base_register = base;
                  scaled_register = scaled;
                  scale = scale;
                  displacement = shift;
                  absolute = absolute;
                }))))
            base
            scaled
            shift)
          m
          n
  unfolding optimize_address
  lea_runs i r (some base) none scale none none m n w d k =
      base_lem i r base scale none m n w d refl k
  lea_runs i r (some base) none scale (some v) none m n w d k =
      under t Agrees v 0 _ _ m n (λ e. base_lem i r base scale (some v) m n w d e k) (n, k, same n)
  lea_runs i r (some base) scaled scale shift (some s) m n w d k = absurd d
  lea_runs i r none scaled scale shift absolute m n w p k = (n, k, same n)
  lea_runs i r (some base) (some x) scale shift none m n w p k = (n, k, same n)

  pub lea_argument_runs :
      (i : Instruction) (a b : Option Argument) (m n : Machine M)
      → IsWords m
      → IsPlainArgument i.size b
      → run t (instr i Operator.lea a b) m ≡ some n
      → RunsAs t Agrees (optimize_lea (instr i Operator.lea a b) b) m n
  unfolding optimize_lea run run_operator load_address
  lea_argument_runs i (some (register r)) (some (address a)) m n w p k =
      lea_runs i r a.base_register a.scaled_register a.scale a.displacement a.absolute m n w p k
  lea_argument_runs i a b m n w p k = cc
