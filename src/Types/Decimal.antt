-- ===== src/Types/Decimal.antt =====
-- What src/mangling.cpp uses of streams: `ss << number`, and the number read back by `read_length`
-- through `toNumber<unsigned int>` of include/Utils.hpp.
use Prim.Native.Nat.{min}
use eddic.Prelude.{
  ℕ, zero, suc, ◌+◌, ◌-◌, ◌*◌, ◌/◌, ◌%◌, ◌<◌, ◌≡◌, refl, arith, ap, ◌∙◌, Bool, true, false, ◌&&◌,
  Option, none, some, List, [], ◌∷◌, ◌++◌, ltb, leb, if◌then◌else◌, Bool-cases, inl, inr, ◌≢◌, sym,
}

-- The decimal digits of a number, on fuel: a number has at most that many digits and one.
pub decimal_fuel : ℕ → ℕ → List ℕ
decimal_fuel zero n = []
decimal_fuel (suc fuel) n =
    let high = decimal_fuel fuel (n / 10) in
    if ltb n 10 then (b'0' + n) ∷ [] else high ++ (b'0' + n % 10) ∷ []

unfoldable pub decimal : ℕ → List ℕ
unfolding decimal_fuel
decimal n = decimal_fuel (suc n) n

abbrev pub is_digit : ℕ → Bool
is_digit c = leb b'0' c && leb c b'9'

abbrev pub value : ℕ → List ℕ → ℕ
value acc [] = acc
value acc (c ∷ cs) = value (acc * 10 + (c - b'0')) cs

-- The loop of read_length: the digits at the front, and what follows.
unfoldable pub span_digits : List ℕ → List ℕ × List ℕ
span_digits [] = ([], [])
span_digits (c ∷ cs) =
    let (ds, rest) = span_digits cs in if is_digit c then (c ∷ ds, rest) else ([], c ∷ cs)

-- With no digit the stream leaves the result as it is, which is no value. A number that does not fit
-- is read as the greatest.
unfoldable pub to_number : List ℕ → Option ℕ
to_number [] = none
to_number (c ∷ cs) = some (min (value 0 (c ∷ cs)) 0xffff_ffff)

abbrev pub AllDigits : List ℕ → Type 0
AllDigits [] = Unit
AllDigits (c ∷ cs) = (is_digit c ≡ true) × AllDigits cs

abbrev pub starts_with_digit : List ℕ → Bool
starts_with_digit [] = false
starts_with_digit (c ∷ cs) = is_digit c

AllDigits-append : (ds es : List ℕ) → AllDigits ds → AllDigits es → AllDigits (ds ++ es)
AllDigits-append [] es h k = k
AllDigits-append (c ∷ cs) es h k = (h.0, AllDigits-append cs es h.1 k)

value-append :
    (acc : ℕ) (ds : List ℕ) (c : ℕ) → value acc (ds ++ c ∷ []) ≡ value acc ds * 10 + (c - b'0')
value-append acc [] c = refl
value-append acc (d ∷ ds) c = value-append (acc * 10 + (d - b'0')) ds c

digit : (n : ℕ) → n < 10 → is_digit (b'0' + n) ≡ true
digit n h = ground arith

decimal_fuel-AllDigits : (fuel n : ℕ) → AllDigits (decimal_fuel fuel n)
unfolding decimal_fuel
decimal_fuel-AllDigits zero n = tt
decimal_fuel-AllDigits (suc fuel) n = elim (Bool-cases (ltb n 10)) [
  | inl small ↦ rw small (digit n (ground arith), tt)
  | inr large ↦ rw large (
      AllDigits-append (decimal_fuel fuel (n / 10)) _ (decimal_fuel-AllDigits fuel (n / 10))
        (digit (n % 10) (omega arith), tt))
]

value-decimal_fuel : (fuel n : ℕ) → n < fuel → value 0 (decimal_fuel fuel n) ≡ n
unfolding decimal_fuel
value-decimal_fuel zero n h = absurd (omega arith)
value-decimal_fuel (suc fuel) n h = elim (Bool-cases (ltb n 10)) [
  | inl small ↦ rw small (omega arith)
  | inr large ↦
      let high : value 0 (decimal_fuel fuel (n / 10)) ≡ n / 10 =
        value-decimal_fuel fuel (n / 10) (ground arith) in
      rw large (omega (arith, high, value-append 0 (decimal_fuel fuel (n / 10)) (b'0' + n % 10)))
]

span_digits-append :
    (ds rest : List ℕ)
    → AllDigits ds
    → starts_with_digit rest ≡ false
    → span_digits (ds ++ rest) ≡ (ds, rest)
unfolding span_digits
span_digits-append [] [] h k = refl
span_digits-append [] (c ∷ cs) h k = simp k
span_digits-append (c ∷ cs) rest h k = rw (h.0, span_digits-append cs rest h.1 k)

-- The number is read back, where no digit follows.
pub span_digits-decimal :
    (n : ℕ) (rest : List ℕ)
    → starts_with_digit rest ≡ false
    → span_digits (decimal n ++ rest) ≡ (decimal n, rest)
unfolding decimal
span_digits-decimal n rest k =
    span_digits-append (decimal_fuel (suc n) n) rest (decimal_fuel-AllDigits (suc n) n) k

append-ne-nil : (xs : List ℕ) (c : ℕ) → xs ++ c ∷ [] ≢ []
append-ne-nil [] c h = cc
append-ne-nil (x ∷ xs) c h = cc

decimal-ne-nil : (n : ℕ) → decimal n ≢ []
unfolding decimal
decimal-ne-nil n = elim (Bool-cases (ltb n 10)) [
  | inl small ↦ rw small (λ h. cc)
  | inr large ↦ rw large (append-ne-nil (decimal_fuel n (n / 10)) (b'0' + n % 10))
]

value-decimal : (n : ℕ) → value 0 (decimal n) ≡ n
unfolding decimal
value-decimal n = value-decimal_fuel (suc n) n (omega arith)

to_number-some : (ds : List ℕ) → ds ≢ [] → to_number ds ≡ some (min (value 0 ds) 0xffff_ffff)
unfolding to_number
to_number-some [] h = absurd (h refl)
to_number-some (c ∷ cs) h = refl

pub to_number-decimal : (n : ℕ) → n < 0x1_0000_0000 → to_number (decimal n) ≡ some n
to_number-decimal n h =
    to_number-some (decimal n) (decimal-ne-nil n) ∙ ap some (omega (arith, value-decimal n))

-- Two numbers with the same digits, each before something that is no digit, are the same, and so is
-- what follows.
pub decimal-injective :
    (m n : ℕ) (r s : List ℕ)
    → starts_with_digit r ≡ false
    → starts_with_digit s ≡ false
    → decimal m ++ r ≡ decimal n ++ s
    → (m ≡ n) × (r ≡ s)
decimal-injective m n r s hr hs h =
    let both : (decimal m, r) ≡ (decimal n, s) =
      sym (span_digits-decimal m r hr) ∙ ap span_digits h ∙ span_digits-decimal n s hs in
    (sym (value-decimal m) ∙ ap (λ p. value 0 p.0) both ∙ value-decimal n, ap (λ p. p.1) both)
