-- ===== src/Types/Unmangle/Lengths.antt =====
-- The length of a mangled type, and what is left to read.
use eddic.Prelude.{ℕ, ◌+◌, ◌≤◌, ◌<◌, arith, List, ◌++◌, length, length-append}
use eddic.Types.{
  Name, SourceType, SourceTypes, standard, custom, array, pointer, template, nil, cons,
}
use eddic.Types.Decimal.{decimal}
use eddic.Types.Mangle.{count}
use eddic.Types.Mangle.Onto.{mangle_onto, mangle_all_onto}
use eddic.Types.Unmangle.Shown.{calls, all_calls}

pub positive_calls : (t : SourceType) → 0 < calls t
positive_calls (standard b c) = omega arith
positive_calls (custom s) = omega arith
positive_calls (array t n) = positive_calls t
positive_calls (pointer t) = positive_calls t
positive_calls (template s ts) = omega arith

mutual
  unfolding mangle_onto mangle_all_onto

  pub length_onto :
      (t : SourceType) (rest : List ℕ) → calls t + length rest ≤ length (mangle_onto t rest)
  length_onto (standard b c) rest = omega arith
  length_onto (custom s) rest =
      omega (arith, length-append (decimal (length s)) (s ++ rest), length-append s rest)
  length_onto (array t n) rest = omega (arith, length_onto t rest)
  length_onto (pointer t) rest = omega (arith, length_onto t rest)
  length_onto (template s ts) rest =
      let args = mangle_all_onto ts rest in
      omega (
        arith,
        length-append (decimal (length s)) (s ++ (decimal (count ts) ++ args)),
        length-append s (decimal (count ts) ++ args),
        length-append (decimal (count ts)) args,
        length_all_onto ts rest,
      )

  pub length_all_onto :
      (ts : SourceTypes) (rest : List ℕ)
      → all_calls ts + length rest ≤ length (mangle_all_onto ts rest)
  length_all_onto nil rest = omega arith
  length_all_onto (cons t ts) rest =
      omega (arith, length_onto t (mangle_all_onto ts rest), length_all_onto ts rest)

-- The arguments of a template are no longer than it.
pub length_template :
    (s : Name) (ts : SourceTypes) (rest : List ℕ)
    → length (mangle_all_onto ts rest) ≤ length (mangle_onto (template s ts) rest)
unfolding mangle_onto
length_template s ts rest =
    let args = mangle_all_onto ts rest in
    omega (
      arith,
      length-append (decimal (length s)) (s ++ (decimal (count ts) ++ args)),
      length-append s (decimal (count ts) ++ args),
      length-append (decimal (count ts)) args,
    )
