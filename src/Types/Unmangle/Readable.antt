-- ===== src/Types/Unmangle/Readable.antt =====
-- extract_type reads a mangled type back.
use eddic.Prelude.{
  ℕ, zero, suc, ◌+◌, ◌-◌, ◌%◌, length-append, ◌≤◌, ◌<◌, ◌≡◌, refl, ap, arith, Bool, true, false,
  Option, some, List, [], ◌∷◌, ◌++◌, ◌==◌, length,
}
use mathlib.Core.List.{append-nil}
use eddic.Types.{
  BaseType, string, int, char, bool, float, void, Name, SourceType, SourceTypes, standard, custom,
  array, pointer, template, nil, cons,
}
use eddic.Types.Decimal.{decimal, starts_with_digit, span_digits-decimal, to_number-decimal}
use eddic.Types.Mangle.{count}
use eddic.Types.Mangle.Onto.{mangle_onto, mangle_all_onto, letter-mangle_all}
use eddic.Types.Unique.{IsIdentifier, letter-append}
use eddic.Types.Unmangle.Lengths.{positive_calls, length_onto, length_template}
use eddic.Types.Unmangle.{
  read_length, read_name, get_name_from_length, extract_params, template_name, extract_letter,
  extract_type,
}
use eddic.Types.Unmangle.Shown.{
  show, show_arguments, is_plain, IsReadable, AreReadable, calls, all_calls,
}

pub read_length-decimal :
    (n : ℕ) (rest : List ℕ)
    → starts_with_digit rest ≡ false
    → n < 0x1_0000_0000
    → read_length (decimal n ++ rest) ≡ some (n, rest)
unfolding read_length
read_length-decimal n rest letter l =
    rw (span_digits-decimal n rest letter, to_number-decimal n l) refl

read_name-append : (s rest : List ℕ) → read_name (length s) (s ++ rest) ≡ some (s, rest)
unfolding read_name
read_name-append [] rest = refl
read_name-append (c ∷ s) rest = rw (read_name-append s rest) refl

-- The name that is read fits.
module _ (size : ℕ) (small : size < 0x1_0000_0000) where
  pub get_name-decimal :
      (s : Name) (rest : List ℕ)
      → IsIdentifier s
      → length (decimal (length s) ++ (s ++ rest)) ≤ size
      → get_name_from_length size (decimal (length s) ++ (s ++ rest)) ≡ some (s, rest)
  unfolding get_name_from_length
  get_name-decimal s rest identifier l =
      let long = length-append s rest in
      let longer = length-append (decimal (length s)) (s ++ rest) in
      let stop : ((size - length (s ++ rest)) + length s) % 0x1_0000_0000
            - (size - length (s ++ rest))
          ≡ length s =
        omega (arith, l, long, longer, small) in
      rw
        (
          read_length-decimal (length s) (s ++ rest) (letter-append s rest identifier)
              (omega (arith, l, long, longer, small)),
          stop,
        )
        (read_name-append s rest)

  -- The letter before a type that is neither an array nor a pointer, and what extract_letter makes of it.
  record IsLetter (fuel : ℕ) (t : SourceType) (rest : List ℕ) : Type 0 where
    letter : ℕ
    others : List ℕ
    shape : mangle_onto t rest ≡ letter ∷ others
    not_array : (letter == b'A') ≡ false
    not_pointer : (letter == b'P') ≡ false
    reads : extract_letter size (λ r. extract_type size fuel r) letter others ≡ some (show t, rest)

  read_letter :
      (fuel : ℕ) (t : SourceType) (rest : List ℕ)
      → IsLetter fuel t rest
      → extract_type size (suc fuel) (mangle_onto t rest) ≡ some (show t, rest)
  unfolding extract_type
  read_letter fuel t rest h =
      rw (h.shape, h.not_array, h.not_pointer, h.reads)
        (ap (λ s. some (s, rest)) (append-nil (show t)))

  read_array :
      (fuel : ℕ) (t : SourceType) (o : Option ℕ) (rest : List ℕ)
      → IsLetter fuel t rest
      → extract_type size (suc fuel) (mangle_onto (array t o) rest) ≡ some (show (array t o), rest)
  unfolding extract_type mangle_onto show
  read_array fuel t o rest h = rw (h.shape, h.not_pointer, h.reads) refl

  read_pointer :
      (fuel : ℕ) (t : SourceType) (rest : List ℕ)
      → IsLetter fuel t rest
      → extract_type size (suc fuel) (mangle_onto (pointer t) rest) ≡ some (show (pointer t), rest)
  unfolding extract_type mangle_onto show
  read_pointer fuel t rest h = rw (h.shape, h.reads) refl

  template-IsLetter :
      (fuel : ℕ) (s : Name) (ts : SourceTypes) (rest : List ℕ)
      → IsReadable (template s ts)
      → length (mangle_onto (template s ts) rest) ≤ size
      → extract_params (λ r. extract_type size fuel r) (count ts) (mangle_all_onto ts rest)
        ≡ some (show_arguments ts, rest)
      → IsLetter fuel (template s ts) rest
  unfolding extract_letter template_name mangle_onto show
  template-IsLetter fuel s ts rest (named, some_args, few, readable) l args = record {
    letter = b'T';
    others = decimal (length s) ++ (s ++ (decimal (count ts) ++ mangle_all_onto ts rest));
    shape = refl;
    not_array = refl;
    not_pointer = refl;
    reads =
        rw
          (
            get_name-decimal s (decimal (count ts) ++ mangle_all_onto ts rest) named
                (omega (arith, l)),
            read_length-decimal (count ts) (mangle_all_onto ts rest)
                (letter-mangle_all ts rest some_args) few,
            args,
          )
          refl;
  }

  standard-IsLetter :
      (fuel : ℕ) (b : BaseType) (c : Bool) (rest : List ℕ)
      → IsReadable (standard b c)
      → IsLetter fuel (standard b c) rest
  unfolding extract_letter mangle_onto show
  standard-IsLetter fuel int c rest h = record {
    letter = b'I';
    others = rest;
    shape = refl;
    not_array = refl;
    not_pointer = refl;
    reads = refl;
  }
  standard-IsLetter fuel char c rest h = record {
    letter = b'C';
    others = rest;
    shape = refl;
    not_array = refl;
    not_pointer = refl;
    reads = refl;
  }
  standard-IsLetter fuel string c rest h = record {
    letter = b'S';
    others = rest;
    shape = refl;
    not_array = refl;
    not_pointer = refl;
    reads = refl;
  }
  standard-IsLetter fuel bool c rest h = record {
    letter = b'B';
    others = rest;
    shape = refl;
    not_array = refl;
    not_pointer = refl;
    reads = refl;
  }
  standard-IsLetter fuel float c rest h = record {
    letter = b'F';
    others = rest;
    shape = refl;
    not_array = refl;
    not_pointer = refl;
    reads = refl;
  }
  standard-IsLetter fuel void c rest h = absurd h

  custom-IsLetter :
      (fuel : ℕ) (s : Name) (rest : List ℕ)
      → IsReadable (custom s)
      → length (mangle_onto (custom s) rest) ≤ size
      → IsLetter fuel (custom s) rest
  unfolding extract_letter mangle_onto show
  custom-IsLetter fuel s rest named l = record {
    letter = b'U';
    others = decimal (length s) ++ (s ++ rest);
    shape = refl;
    not_array = refl;
    not_pointer = refl;
    reads = get_name-decimal s rest named (omega (arith, l));
  }

  mutual
    unfolding mangle_all_onto extract_params show_arguments

    plain-IsLetter :
        (fuel : ℕ) (t : SourceType) (rest : List ℕ)
        → IsReadable t
        → is_plain t ≡ true
        → calls t ≤ suc fuel
        → length (mangle_onto t rest) ≤ size
        → IsLetter fuel t rest
    plain-IsLetter fuel (standard b c) rest h plain l k = standard-IsLetter fuel b c rest h
    plain-IsLetter fuel (custom s) rest h plain l k = custom-IsLetter fuel s rest h k
    plain-IsLetter fuel (array t n) rest h plain l k = cc
    plain-IsLetter fuel (pointer t) rest h plain l k = cc
    plain-IsLetter fuel (template s ts) rest h plain l k = template-IsLetter fuel s ts rest h k (
        read_arguments fuel ts rest h.3 (omega (arith, l))
          (omega (arith, k, length_template s ts rest)))

    read_type :
        (fuel : ℕ) (t : SourceType) (rest : List ℕ)
        → IsReadable t
        → calls t ≤ fuel
        → length (mangle_onto t rest) ≤ size
        → extract_type size fuel (mangle_onto t rest) ≡ some (show t, rest)
    read_type zero t rest h l k = absurd (omega (arith, l, positive_calls t))
    read_type (suc fuel) (array t n) rest h l k =
        read_array fuel t n rest (plain-IsLetter fuel t rest h.1 h.0 l (omega (arith, k)))
    read_type (suc fuel) (pointer t) rest h l k =
        read_pointer fuel t rest (plain-IsLetter fuel t rest h.1 h.0 l (omega (arith, k)))
    read_type (suc fuel) (standard b c) rest h l k =
        read_letter fuel (standard b c) rest (standard-IsLetter fuel b c rest h)
    read_type (suc fuel) (custom s) rest h l k =
        read_letter fuel (custom s) rest (custom-IsLetter fuel s rest h k)
    read_type (suc fuel) (template s ts) rest h l k = read_letter fuel (template s ts) rest (
        template-IsLetter fuel s ts rest h k (
          read_arguments fuel ts rest h.3 (omega (arith, l))
            (omega (arith, k, length_template s ts rest))))

    read_arguments :
        (fuel : ℕ) (ts : SourceTypes) (rest : List ℕ)
        → AreReadable ts
        → all_calls ts ≤ fuel
        → length (mangle_all_onto ts rest) ≤ size
        → extract_params (λ r. extract_type size fuel r) (count ts) (mangle_all_onto ts rest)
          ≡ some (show_arguments ts, rest)
    read_arguments fuel nil rest h l k = refl
    read_arguments fuel (cons t ts) rest h l k =
        rw
          (
            read_type fuel t (mangle_all_onto ts rest) h.0 (omega (arith, l)) k,
            read_arguments fuel ts rest h.1 (omega (arith, l))
                (omega (arith, k, length_onto t (mangle_all_onto ts rest))),
          )
          refl

  pub extract_type-mangle :
      (fuel : ℕ) (t : SourceType) (rest : List ℕ)
      → IsReadable t
      → calls t ≤ fuel
      → length (mangle_onto t rest) ≤ size
      → extract_type size fuel (mangle_onto t rest) ≡ some (show t, rest)
  extract_type-mangle fuel t rest h l k = read_type fuel t rest h l k
