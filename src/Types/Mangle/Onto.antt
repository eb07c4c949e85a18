-- ===== src/Types/Mangle/Onto.antt =====
-- A mangled type before what follows it: the form in which the proofs take mangled names apart.
use eddic.Prelude.{ℕ, ◌<◌, ◌≡◌, ◌≢◌, arith, refl, sym, ap, ◌∙◌, false, List, [], ◌∷◌, ◌++◌, length}
use mathlib.Core.List.{append_assoc, append-nil}
use eddic.Types.{
  BaseType, string, int, char, bool, float, void, SourceType, SourceTypes, standard, custom, array,
  pointer, template, nil, cons,
}
use eddic.Types.Decimal.{decimal, is_digit, starts_with_digit}
use eddic.Types.Mangle.{base_code, count, mangle, mangle_all}

unfoldable mutual
  pub mangle_onto : SourceType → List ℕ → List ℕ
  mangle_onto (array t n) rest = b'A' ∷ mangle_onto t rest
  mangle_onto (pointer t) rest = b'P' ∷ mangle_onto t rest
  mangle_onto (standard b c) rest = base_code b ∷ rest
  mangle_onto (custom s) rest = b'U' ∷ (decimal (length s) ++ (s ++ rest))
  mangle_onto (template s ts) rest =
      b'T' ∷ (decimal (length s) ++ (s ++ (decimal (count ts) ++ mangle_all_onto ts rest)))

  pub mangle_all_onto : SourceTypes → List ℕ → List ℕ
  mangle_all_onto nil rest = rest
  mangle_all_onto (cons t ts) rest = mangle_onto t (mangle_all_onto ts rest)

mutual
  unfolding mangle mangle_all mangle_onto mangle_all_onto

  onto : (t : SourceType) (rest : List ℕ) → mangle t ++ rest ≡ mangle_onto t rest
  onto (array t n) rest = ap (λ x. b'A' ∷ x) (onto t rest)
  onto (pointer t) rest = ap (λ x. b'P' ∷ x) (onto t rest)
  onto (standard b c) rest = refl
  onto (custom s) rest = simp append_assoc
  onto (template s ts) rest = simp (append_assoc, onto_all ts rest)

  onto_all : (ts : SourceTypes) (rest : List ℕ) → mangle_all ts ++ rest ≡ mangle_all_onto ts rest
  onto_all nil rest = refl
  onto_all (cons t ts) rest =
      append_assoc (mangle t) (mangle_all ts) rest
      ∙ onto t (mangle_all ts ++ rest)
      ∙ ap (mangle_onto t) (onto_all ts rest)

pub append-mangle : (t : SourceType) (rest : List ℕ) → mangle t ++ rest ≡ mangle_onto t rest
append-mangle t rest = onto t rest

pub append-mangle_all :
    (ts : SourceTypes) (rest : List ℕ) → mangle_all ts ++ rest ≡ mangle_all_onto ts rest
append-mangle_all ts rest = onto_all ts rest

pub mangle-eq-onto : (t : SourceType) → mangle t ≡ mangle_onto t []
mangle-eq-onto t = sym (append-nil (mangle t)) ∙ onto t []

pub mangle_all-eq-onto : (ts : SourceTypes) → mangle_all ts ≡ mangle_all_onto ts []
mangle_all-eq-onto ts = sym (append-nil (mangle_all ts)) ∙ onto_all ts []

base_code-letter : (b : BaseType) → is_digit (base_code b) ≡ false
base_code-letter string = refl
base_code-letter int = refl
base_code-letter char = refl
base_code-letter bool = refl
base_code-letter float = refl
base_code-letter void = refl

-- A mangled type begins with a letter.
pub letter-mangle :
    (t : SourceType) (rest : List ℕ) → starts_with_digit (mangle_onto t rest) ≡ false
unfolding mangle_onto
letter-mangle (array t n) rest = refl
letter-mangle (pointer t) rest = refl
letter-mangle (standard b c) rest = base_code-letter b
letter-mangle (custom s) rest = refl
letter-mangle (template s ts) rest = refl

pub letter-mangle_all :
    (ts : SourceTypes) (rest : List ℕ)
    → 0 < count ts
    → starts_with_digit (mangle_all_onto ts rest) ≡ false
unfolding mangle_all_onto
letter-mangle_all nil rest h = absurd (omega arith)
letter-mangle_all (cons t ts) rest h = letter-mangle t (mangle_all_onto ts rest)

pub mangle_onto-ne-nil : (t : SourceType) (rest : List ℕ) → mangle_onto t rest ≢ []
unfolding mangle_onto
mangle_onto-ne-nil (array t n) rest h = cc
mangle_onto-ne-nil (pointer t) rest h = cc
mangle_onto-ne-nil (standard b c) rest h = cc
mangle_onto-ne-nil (custom s) rest h = cc
mangle_onto-ne-nil (template s ts) rest h = cc
