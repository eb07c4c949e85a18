-- ===== src/Types/Unique.antt =====
-- A mangled name belongs to one function: nothing else has it.
use eddic.Prelude.{
  ℕ, suc, ◌<◌, ◌≡◌, ◌≢◌, ◌↔◌, refl, sym, arith, ap, ◌∙◌, Bool, true, false, ◌&&◌, Option, none,
  some, List, [], ◌∷◌, ◌++◌, length, ◌==◌,
}
use mathlib.Core.List.{append_assoc}
use eddic.Types.{
  BaseType, Name, SourceType, SourceTypes, standard, custom, array, pointer, template, nil, cons,
  name_eq, type_eq, types_eq, base_position,
}
use eddic.Types.Decimal.{decimal, decimal-injective, is_digit, starts_with_digit}
use eddic.Types.Mangle.{base_code, count, sized, mangle, mangle_all, prefix, mangle_function}
use eddic.Types.Mangle.Onto.{
  mangle_onto, mangle_all_onto, mangle-eq-onto, append-mangle, mangle_all-eq-onto,
  mangle_onto-ne-nil, letter-mangle_all,
}

-- An identifier of the language begins with no digit.
abbrev pub IsIdentifier : Name → Type 0
IsIdentifier [] = ⊥
IsIdentifier (c ∷ cs) = is_digit c ≡ false

-- Every name in the type is an identifier, and every template has an argument.
abbrev mutual
  pub IsNamed : SourceType → Type 0
  IsNamed (array t n) = IsNamed t
  IsNamed (pointer t) = IsNamed t
  IsNamed (standard b c) = Unit
  IsNamed (custom s) = IsIdentifier s
  IsNamed (template s ts) = IsIdentifier s × (0 < count ts) × AreNamed ts

  pub AreNamed : SourceTypes → Type 0
  AreNamed nil = Unit
  AreNamed (cons t ts) = IsNamed t × AreNamed ts

abbrev pub IsNamedOption : Option SourceType → Type 0
IsNamedOption none = Unit
IsNamedOption (some t) = IsNamed t

-- No structure, or structures that `operator==` says are equal.
abbrev pub IsSameStruct : Option SourceType → Option SourceType → Type 0
IsSameStruct none none = Unit
IsSameStruct (some t) (some u) = type_eq t u ≡ true
IsSameStruct _ _ = ⊥

pub letter-append : (s r : List ℕ) → IsIdentifier s → starts_with_digit (s ++ r) ≡ false
letter-append [] r h = absurd h
letter-append (c ∷ cs) r h = h

-- Lists of one length before something are told apart.
append-cancel :
    (s t r u : List ℕ) → length s ≡ length t → s ++ r ≡ t ++ u → (name_eq s t ≡ true) × (r ≡ u)
append-cancel [] [] r u n h = (refl, h)
append-cancel [] (d ∷ ds) r u n h = absurd (omega arith)
append-cancel (c ∷ cs) [] r u n h = absurd (omega arith)
append-cancel (c ∷ cs) (d ∷ ds) r u n h =
    let same : c ≡ d = cc in
    let rest : cs ++ r ≡ ds ++ u = cc in ground (arith, append-cancel cs ds r u (omega arith) rest)

-- A name with its length before it is read back.
pub sized-injective :
    (s t r u : List ℕ)
    → IsIdentifier s
    → IsIdentifier t
    → decimal (length s) ++ (s ++ r) ≡ decimal (length t) ++ (t ++ u)
    → (name_eq s t ≡ true) × (r ≡ u)
sized-injective s t r u hs ht h =
    let (n, rest) =
      decimal-injective (length s) (length t) (s ++ r) (t ++ u) (letter-append s r hs)
        (letter-append t u ht) h in
    append-cancel s t r u n rest

tail-eq : {c d : ℕ} {xs ys : List ℕ} → c ∷ xs ≡ d ∷ ys → xs ≡ ys
tail-eq h = cc

base-injective :
    (b c : BaseType) → base_code b ≡ base_code c → (base_position b == base_position c) ≡ true
base-injective b c h = ground arith

base-same :
    (b c : BaseType) → (base_position b == base_position c) ≡ true → base_code b ≡ base_code c
base-same b c h = ground arith

head-eq : {c d : ℕ} {xs ys : List ℕ} → c ∷ xs ≡ d ∷ ys → c ≡ d
head-eq h = cc

mutual
  unfolding mangle_onto mangle_all_onto type_eq types_eq

  unique :
      (a b : SourceType) (r s : List ℕ)
      → IsNamed a
      → IsNamed b
      → mangle_onto a r ≡ mangle_onto b s
      → (type_eq a b ≡ true) × (r ≡ s)
  unique (array a m) (array b n) r s ha hb h = unique a b r s ha hb (tail-eq h)
  unique (pointer a) (pointer b) r s ha hb h = unique a b r s ha hb (tail-eq h)
  unique (standard b c) (standard b' c') r s ha hb h = (base-injective b b' (head-eq h), tail-eq h)
  unique (custom x) (custom y) r s ha hb h = sized-injective x y r s ha hb (tail-eq h)
  unique (template x ts) (template y us) r s (hx, nt, ht) (hy, nu, hu) h =
      let (names, rest) =
        sized-injective x y (decimal (count ts) ++ mangle_all_onto ts r)
          (decimal (count us) ++ mangle_all_onto us s) hx hy (tail-eq h) in
      let (n, tails) =
        decimal-injective (count ts) (count us) (mangle_all_onto ts r) (mangle_all_onto us s)
          (letter-mangle_all ts r nt) (letter-mangle_all us s nu) rest in
      let (types, ends) = unique_all ts us r s ht hu n tails in (rw (names, types) refl, ends)
  unique a b r s ha hb h = ground arith

  unique_all :
      (ts us : SourceTypes) (r s : List ℕ)
      → AreNamed ts
      → AreNamed us
      → count ts ≡ count us
      → mangle_all_onto ts r ≡ mangle_all_onto us s
      → (types_eq ts us ≡ true) × (r ≡ s)
  unique_all nil nil r s ha hb n h = (refl, h)
  unique_all nil (cons b us) r s ha hb n h = absurd (omega arith)
  unique_all (cons a ts) nil r s ha hb n h = absurd (omega arith)
  unique_all (cons a ts) (cons b us) r s ha hb n h =
      let (first, rest) = unique a b (mangle_all_onto ts r) (mangle_all_onto us s) ha.0 hb.0 h in
      let (others, ends) = unique_all ts us r s ha.1 hb.1 (omega arith) rest in
      (rw (first, others) refl, ends)

-- Lists of types that run to the end.
unique_list :
    (ts us : SourceTypes)
    → AreNamed ts
    → AreNamed us
    → mangle_all_onto ts [] ≡ mangle_all_onto us []
    → types_eq ts us ≡ true
unfolding mangle_all_onto types_eq
unique_list nil nil ha hb h = refl
unique_list nil (cons b us) ha hb h = absurd (mangle_onto-ne-nil b (mangle_all_onto us []) (sym h))
unique_list (cons a ts) nil ha hb h = absurd (mangle_onto-ne-nil a (mangle_all_onto ts []) h)
unique_list (cons a ts) (cons b us) ha hb h =
    let (first, rest) = unique a b (mangle_all_onto ts []) (mangle_all_onto us []) ha.0 hb.0 h in
    rw (first, unique_list ts us ha.1 hb.1 rest) refl

pub name-eq : (s t : Name) → name_eq s t ≡ true → s ≡ t
name-eq [] [] h = refl
name-eq [] (d ∷ ds) h = cc
name-eq (c ∷ cs) [] h = cc
name-eq (c ∷ cs) (d ∷ ds) h = ground (arith, name-eq cs ds)

-- Types that compare equal are mangled alike.
append-eq : {s t u v : List ℕ} → s ≡ t → u ≡ v → s ++ u ≡ t ++ v
append-eq {s} {t} {u} {v} h k = ap (λ x. x ++ u) h ∙ ap (λ x. t ++ x) k

and-both : (x y : Bool) → (x && y) ≡ true → (x ≡ true) × (y ≡ true)
and-both true y h = (refl, h)
and-both false y h = cc

mutual
  unfolding mangle mangle_all type_eq types_eq

  same_name : (a b : SourceType) → type_eq a b ≡ true → mangle a ≡ mangle b
  same_name (array a m) (array b n) h = ap (λ x. b'A' ∷ x) (same_name a b h)
  same_name (pointer a) (pointer b) h = ap (λ x. b'P' ∷ x) (same_name a b h)
  same_name (standard b c) (standard b' c') h = ap (λ x. x ∷ []) (base-same b b' h)
  same_name (custom x) (custom y) h = ap (λ s. b'U' ∷ sized s) (name-eq x y h)
  same_name (template x ts) (template y us) h =
      let (hx, ht) = and-both (name_eq x y) (types_eq ts us) h in
      let (n, types) = same_names ts us ht in
      ap (λ s. b'T' ∷ s) (append-eq (ap sized (name-eq x y hx)) (append-eq (ap decimal n) types))
  same_name a b h = cc

  same_names :
      (ts us : SourceTypes)
      → types_eq ts us ≡ true
      → (count ts ≡ count us) × (mangle_all ts ≡ mangle_all us)
  same_names nil nil h = (refl, refl)
  same_names (cons a ts) (cons b us) h =
      let (ha, ht) = and-both (type_eq a b) (types_eq ts us) h in
      let (n, types) = same_names ts us ht in (ap suc n, append-eq (same_name a b ha) types)
  same_names ts us h = cc

-- Two types whose names are identifiers have the same mangled name exactly if `operator==` says that
-- they are equal; neither the number of elements of an array nor `const` counts.
pub mangle-eq_iff :
    (a b : SourceType) → IsNamed a → IsNamed b → (mangle a ≡ mangle b) ↔ (type_eq a b ≡ true)
mangle-eq_iff a b ha hb =
    (λ h. (unique a b [] [] ha hb (sym (mangle-eq-onto a) ∙ h ∙ mangle-eq-onto b)).0, same_name a b)

function-ne-member : {c : ℕ} → c ≡ b'F' → c ≢ b'M'
function-ne-member h k = absurd (omega arith)

same_prefix :
    (t u : Option SourceType) (r s : List ℕ)
    → IsNamedOption t
    → IsNamedOption u
    → prefix t ++ r ≡ prefix u ++ s
    → IsSameStruct t u × (r ≡ s)
unfolding prefix
same_prefix none none r s ht hu h = (tt, tail-eq (tail-eq h))
same_prefix none (some u) r s ht hu h = absurd (function-ne-member refl (head-eq (tail-eq h)))
same_prefix (some t) none r s ht hu h = absurd (function-ne-member refl (sym (head-eq (tail-eq h))))
same_prefix (some t) (some u) r s ht hu h =
    unique t u r s ht hu (sym (append-mangle t r) ∙ tail-eq (tail-eq h) ∙ append-mangle u s)

sized_types :
    (f g : Name) (ts us : SourceTypes)
    → IsIdentifier f
    → IsIdentifier g
    → AreNamed ts
    → AreNamed us
    → sized f ++ mangle_all ts ≡ sized g ++ mangle_all us
    → (name_eq f g ≡ true) × (types_eq ts us ≡ true)
sized_types f g ts us hf hg ht hu h =
    let (names, rest) = sized-injective f g (mangle_all ts) (mangle_all us) hf hg (
      sym (append_assoc (decimal (length f)) f (mangle_all ts))
      ∙ h
      ∙ append_assoc (decimal (length g)) g (mangle_all us)) in
    (names, unique_list ts us ht hu (sym (mangle_all-eq-onto ts) ∙ rest ∙ mangle_all-eq-onto us))

-- Two functions whose names, and the names in whose types, are identifiers, and which have the same
-- mangled name, have the same name, equal parameter types and equal structures, or none.
pub mangle_function_unique :
    (f g : Name) (ts us : SourceTypes) (t u : Option SourceType)
    → IsIdentifier f
    → IsIdentifier g
    → AreNamed ts
    → AreNamed us
    → IsNamedOption t
    → IsNamedOption u
    → mangle_function f ts t ≡ mangle_function g us u
    → (name_eq f g ≡ true) × (types_eq ts us ≡ true) × IsSameStruct t u
unfolding mangle_function
mangle_function_unique f g ts us t u hf hg ht hu h k same =
    let (structs, rest) =
      same_prefix t u (sized f ++ mangle_all ts) (sized g ++ mangle_all us) h k same in
    let (names, types) = sized_types f g ts us hf hg ht hu rest in (names, types, structs)
