-- ===== src/Mtac/Strength/Negative.antt =====
-- ReduceInStrength on the remainder of a negative number.
use Prim.Native.Nat.{bit_and}
use eddic.Prelude.{
  ℕ, ◌==◌, if◌then◌else◌, false, ◌-◌, ◌^◌, ◌<◌, ◌≡◌, ◌≢◌, refl, sym, ap, ◌∙◌, arith, Bool, true,
  Option, some, ◌>>=◌, >>=-eq-some,
}
use native.Mathlib.Nat.{mod-lt}
use eddic.Word
use eddic.Word.{IsWord, half, is_negative}
use eddic.Word.Bits.{bit_and-mask, pow_pos}
use eddic.Mtac.Operator.{Operator}
use eddic.Mtac.Quadruple.{Doubles, Argument, Quadruple, int}
use eddic.Mtac.Meaning.{Value, integer, writes, commit, read, effect, run, binary_op}
use mathlib.Core.Option.{some-injective}
use eddic.Mtac.Strength.{is_power_of_two, reduce_in_strength}
use eddic.Mtac.Strength.Powers.{is_power_of_two_iff}

bit_and-lt : (k a : ℕ) → bit_and a (2 ^ k - 1) < 2 ^ k
bit_and-lt k a = rw bit_and-mask (mod-lt a (pow_pos k))

negative_remainder :
    (a c w : ℕ) → is_negative a ≡ true → c < half → Word.rem a c ≡ some w → w ≢ 0 → ¬ (w < c)
unfolding Word.rem
negative_remainder a c w n small r nz h = ground arith

bit_and-ne-rem :
    (a c w : ℕ)
    → is_negative a ≡ true
    → is_power_of_two c ≡ true
    → Word.rem a c ≡ some w
    → w ≢ 0
    → bit_and a (c - 1) ≢ w
bit_and-ne-rem a c w n t r nz =
    let (k, p, small) = (is_power_of_two_iff c).0 t in
    let masked : bit_and a (c - 1) < c = rw p (bit_and-lt k a) in
    λ e. negative_remainder a c w n small r nz (rw e at masked)

module _ {D : Type 0} where
  abbrev written : (ℕ → Value D) → ℕ → ℕ → (ℕ → Value D) × Bool
  written env r w = ((λ y. if y == r then integer w else env y), false)

  written_self : (env : ℕ → Value D) (r w : ℕ) → (written env r w).0 r ≡ integer w
  written_self env r w = ground arith

  abbrev word : ℕ → Value D
  word n = integer n

  word-injective : (m n : ℕ) → word m ≡ word n → m ≡ n
  word-injective m n h = cc

remainder :
    {B : Type 0} (n c : ℕ) (f : ℕ → Option B) (s : B)
    → (Word.rem n c >>= f) ≡ some s
    → (w : ℕ) × (Word.rem n c ≡ some w)
remainder n c f s h = let (w, e, _) = >>=-eq-some (Word.rem n c) f h in (w, e)

-- For a negative dividend the remainder by a power of two is negative where it is not 0, and the AND
-- that ReduceInStrength replaces the MOD by is not: when the MOD has run and its result is not 0, the
-- quadruple that is left runs, and to a store where the result is another one.
pub run-reduce_in_strength-negative :
    {D : Type 0} (d : Doubles D) (env : ℕ → Value D) (q : Quadruple D) (o : Bool) (a : Argument D)
    (n c r : ℕ) (s : (ℕ → Value D) × Bool)
    → q.op ≡ Operator.modulo
    → q.arg1 ≡ some a
    → q.arg2 ≡ some (int c)
    → q.result ≡ some r
    → read env a ≡ integer n
    → is_negative n ≡ true
    → is_power_of_two c ≡ true
    → run d env q ≡ some s
    → s.0 r ≢ integer 0
    → (p : Quadruple D) × (changed : Bool) × (t : (ℕ → Value D) × Bool) × (reduce_in_strength d q o
        ≡ some (p, changed))
      × (run d env p ≡ some t)
      × (t.0 r ≢ s.0 r)
unfolding reduce_in_strength run effect binary_op
run-reduce_in_strength-negative {D = D} d env q o a n c r s op first second result value negative t
      ran nz =
    let ran' : ((Word.rem n c >>= λ w. some (writes (integer w))) >>= commit d env (some r))
        ≡ some s =
      rw (op, first, second, result, value) at ran in
    let (x, f, _) = >>=-eq-some (Word.rem n c >>= λ w. some (writes (integer w))) _ ran' in
    let (w, e) = remainder n c (λ w. some (writes (integer w))) x f in
    let k : some (written env r w) ≡ some s = rw (e, ◌>>=◌) at ran' in
    let at_r : s.0 r ≡ integer w =
      ap (λ (x : (ℕ → Value D) × Bool). x.0 r) (sym (some-injective _ s k))
      ∙ written_self env r w in
    let m = bit_and n (c - 1) in
    (
      record q { op = Operator.and; arg1 = some a; arg2 = some (int (c - 1)) },
      true,
      written env r m,
      rw (op, first, second, t) refl,
      rw (result, value) refl,
      λ same'.
          bit_and-ne-rem n c w negative t e (λ z. nz (at_r ∙ ap integer z))
            (word-injective m w (sym (written_self env r m) ∙ same' ∙ at_r)),
    )
