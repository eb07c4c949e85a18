-- ===== src/Types/Unmangle/Restored.antt =====
-- unmangle reads a mangled function back.
use eddic.Prelude.{
  ℕ, zero, suc, ◌<◌, ◌≤◌, ◌≡◌, refl, sym, ap, ◌∙◌, arith, true, Option, none, some, [], ◌∷◌, ◌++◌,
  length, length-append, ltb,
}
use mathlib.Core.List.{append_assoc}
use eddic.Types.{Name, SourceType, SourceTypes, nil, cons}
use eddic.Types.Decimal.{decimal}
use eddic.Types.Mangle.{count, sized, mangle, mangle_all, prefix, mangle_function}
use eddic.Types.Mangle.Onto.{
  mangle_onto, mangle_all_onto, append-mangle, append-mangle_all, mangle-eq-onto,
  mangle_all-eq-onto,
}
use eddic.Types.Unique.{IsIdentifier}
use eddic.Types.Unmangle.{member_prefix, unmangle_loop, unmangle_chars, unmangle}
use eddic.Types.Unmangle.Shown.{
  show_parameters, show_function, AreReadable, IsReadableOption, calls, all_calls,
}
use eddic.Types.Unmangle.Lengths.{positive_calls, length_onto, length_all_onto}
use eddic.Types.Unmangle.Readable.{get_name-decimal, extract_type-mangle}

count-le-calls : (ts : SourceTypes) → count ts ≤ all_calls ts
count-le-calls nil = omega arith
count-le-calls (cons t ts) = omega (arith, positive_calls t, count-le-calls ts)

length_ended :
    (ts : SourceTypes) → length (mangle_all_onto ts (0 ∷ [])) ≡ suc (length (mangle_all ts))
length_ended ts =
    sym (ap length (append-mangle_all ts (0 ∷ [])))
    ∙ (length-append (mangle_all ts) (0 ∷ []) ∙ omega arith)

unmangle_loop-mangle_all :
    (size depth fuel : ℕ) (ts : SourceTypes)
    → size < 0x1_0000_0000
    → AreReadable ts
    → all_calls ts ≤ depth
    → count ts ≤ fuel
    → length (mangle_all_onto ts (0 ∷ [])) ≤ size
    → unmangle_loop size depth fuel (mangle_all_onto ts (0 ∷ [])) ≡ some (show_parameters ts)
unfolding unmangle_loop mangle_all_onto show_parameters
unmangle_loop-mangle_all size depth zero nil small h d l k = refl
unmangle_loop-mangle_all size depth (suc fuel) nil small h d l k = refl
unmangle_loop-mangle_all size depth zero (cons t ts) small h d l k = absurd (omega (arith, l))
unmangle_loop-mangle_all size depth (suc fuel) (cons t ts) small h d l k =
    let rest = mangle_all_onto ts (0 ∷ []) in
    let full : ltb 1 (length (mangle_onto t rest)) ≡ true =
      ground (arith, length_onto t rest, positive_calls t, length_ended ts) in
    let more : ltb 2 (length rest) ≡ ltb 1 (length (mangle_all ts)) =
      ground (arith, length_ended ts) in
    rw
      (
        full,
        extract_type-mangle size small depth t rest h.0 (omega (arith, d)) k,
        unmangle_loop-mangle_all size depth fuel ts small h.1 (omega (arith, d)) (omega (arith, l))
            (omega (arith, k, length_onto t rest)),
        more,
      )
      refl

-- What is left to read after the prefix.
ended :
    (f : Name) (ts : SourceTypes)
    → (sized f ++ mangle_all ts) ++ 0 ∷ []
      ≡ decimal (length f) ++ (f ++ mangle_all_onto ts (0 ∷ []))
ended f ts = simp (append_assoc, append-mangle_all ts (0 ∷ []))

calls_all : (ts : SourceTypes) → all_calls ts ≤ length (mangle_all ts)
calls_all ts = omega (arith, length_all_onto ts [], ap length (mangle_all-eq-onto ts))

ended_member :
    (t : SourceType) (f : Name) (ts : SourceTypes)
    → (mangle t ++ (sized f ++ mangle_all ts)) ++ 0 ∷ []
      ≡ mangle_onto t (decimal (length f) ++ (f ++ mangle_all_onto ts (0 ∷ [])))
ended_member t f ts =
    append_assoc (mangle t) (sized f ++ mangle_all ts) (0 ∷ [])
    ∙ (ap (λ r. mangle t ++ r) (ended f ts)
        ∙ append-mangle t (decimal (length f) ++ (f ++ mangle_all_onto ts (0 ∷ []))))

calls_one : (t : SourceType) → calls t ≤ length (mangle t)
calls_one t = omega (arith, length_onto t [], ap length (mangle-eq-onto t))

left_params :
    (f : Name) (ts : SourceTypes)
    → length (mangle_all_onto ts (0 ∷ []))
      ≤ length (decimal (length f) ++ (f ++ mangle_all_onto ts (0 ∷ [])))
left_params f ts =
    let rest = mangle_all_onto ts (0 ∷ []) in
    omega (arith, length-append (decimal (length f)) (f ++ rest), length-append f rest)

parts :
    (struct_type : Option SourceType) (f : Name) (ts : SourceTypes) (size fuel : ℕ)
    → size < 0x1_0000_0000
    → IsIdentifier f
    → AreReadable ts
    → IsReadableOption struct_type
    → length (mangle_function f ts struct_type) ≤ fuel
    → suc (length (mangle_function f ts struct_type)) ≤ size
    → unmangle_chars size fuel (mangle_function f ts struct_type ++ 0 ∷ [])
      ≡ some (show_function f ts struct_type)
unfolding mangle_function prefix unmangle_chars member_prefix show_function
parts none f ts size fuel small hf ht hs l k =
    let long = length-append (sized f) (mangle_all ts) in
    let whole = length-append (sized f ++ mangle_all ts) (0 ∷ []) in
    let left = ap length (ended f ts) in
    let params = left_params f ts in
    rw
      (
        ended f ts,
        get_name-decimal size small f (mangle_all_onto ts (0 ∷ [])) hf
            (omega (arith, k, whole, left)),
        unmangle_loop-mangle_all size fuel fuel ts small ht (omega (arith, l, long, calls_all ts))
            (omega (arith, l, long, calls_all ts, count-le-calls ts))
            (omega (arith, k, whole, left, params)),
      )
      refl
parts (some t) f ts size fuel small hf ht hs l k =
    let long = length-append (sized f) (mangle_all ts) in
    let longer = length-append (mangle t) (sized f ++ mangle_all ts) in
    let whole = length-append (mangle t ++ (sized f ++ mangle_all ts)) (0 ∷ []) in
    let left = ap length (ended_member t f ts) in
    let params = left_params f ts in
    let after = length_onto t (decimal (length f) ++ (f ++ mangle_all_onto ts (0 ∷ []))) in
    rw
      (
        ended_member t f ts,
        extract_type-mangle size small fuel t
            (decimal (length f) ++ (f ++ mangle_all_onto ts (0 ∷ []))) hs
            (omega (arith, l, longer, calls_one t)) (omega (arith, k, whole, left)),
        get_name-decimal size small f (mangle_all_onto ts (0 ∷ [])) hf
            (omega (arith, k, whole, left, after)),
        unmangle_loop-mangle_all size fuel fuel ts small ht
            (omega (arith, l, long, longer, calls_all ts))
            (omega (arith, l, long, longer, calls_all ts, count-le-calls ts))
            (omega (arith, k, whole, left, after, params)),
      )
      refl

-- unmangle gives a mangled function back as text: its structure, its name and its parameters, with the
-- comma left out before a last parameter of one letter. The names are identifiers, the types such that
-- unmangle has a text for them, and the mangled name has fewer than 2 ^ 32 - 1 bytes.
pub unmangle-mangle_function :
    (f : Name) (ts : SourceTypes) (struct_type : Option SourceType)
    → IsIdentifier f
    → AreReadable ts
    → IsReadableOption struct_type
    → length (mangle_function f ts struct_type) < 0xffff_ffff
    → unmangle (mangle_function f ts struct_type) ≡ some (show_function f ts struct_type)
unfolding unmangle
unmangle-mangle_function f ts struct_type hf ht hs l =
    let n = length (mangle_function f ts struct_type) in
    let fits : ltb n 0xffff_ffff ≡ true = ground (arith, l) in
    rw fits
      (parts struct_type f ts (suc n) n (omega (arith, l)) hf ht hs (omega arith) (omega arith))
