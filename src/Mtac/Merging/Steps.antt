-- ===== src/Mtac/Merging/Steps.antt =====
-- src/mtac/merge_basic_blocks.cpp: what a round of the loop does to the function and to the iterator.
use mathlib.Core.Bool.{not}
use eddic.Prelude.{
  ℕ, ◌+◌, ◌≤◌, ◌<◌, ◌≡◌, refl, ap, ◌∙◌, arith, Bool, true, false, Option, none, some, List, [], ◌∷◌,
  ◌==◌, contains, if◌then◌else◌, contains-retain,
}
use eddic.Word.{minus_one}
use eddic.Mtac.Function.{Function, indexes, next_of, prev_of, minus_two}
use eddic.Mtac.Function.Edges.{has}
use eddic.Mtac.Function.Linked.{next_of-has, next_of-ne, next_of_self}
use eddic.Mtac.DeadBlocks.Framed.{prev_of_exists, next_of_exists}
use eddic.Mtac.Merging.{Callees, Merging, is_mergeable}
use eddic.Mtac.Merging.Places.{rest_from, rest_from-next_of, rest_from-without, prev_of-next_of}
use eddic.Mtac.Merging.Code.{shape}
use eddic.Mtac.Merging.Kept.{code}
use eddic.Mtac.Merging.Framed.{IsFramed}
use eddic.Mtac.Merging.Used.{AllUsed}
use eddic.Mtac.Merging.Refined.{IsRefined, IsRefined-same}
use eddic.Mtac.Merging.Removes.{IsLess}

abbrev pub one_if : Bool → ℕ
one_if o = if o then 1 else 0

rest_from_pos : (i : ℕ) (is : List ℕ) → contains is i ≡ true → 0 < rest_from is i
rest_from_pos i [] h = cc
rest_from_pos i (x ∷ xs) h = ground (arith, rest_from_pos i xs, h)

pub mergeable-some :
    (usage : List ℕ) (next : Option ℕ)
    → is_mergeable usage next ≡ true
    → (n : ℕ) × (next ≡ some n) × ((minus_two == n) ≡ false) × (contains usage n ≡ false)
mergeable-some usage none h = cc
mergeable-some usage (some n) h = (n, refl, ground (arith, h), ground (arith, h))

module _ {D : Type 0} where
  -- how many blocks there are from the iterator to the end
  abbrev pub rest_at : Function D → Option ℕ → ℕ
  rest_at f none = 0
  rest_at f (some i) = rest_from (indexes f.blocks) i

  -- What falls in every round.
  abbrev pub measure : Function D → Option ℕ → ℕ
  measure f at = f.count + rest_at f at

  abbrev pub IsPlace : Function D → Option ℕ → Type 0
  IsPlace f none = Unit
  IsPlace f (some i) = has f.blocks i ≡ true

  pub record IsStep (c : Callees) (s : Merging D) (i : ℕ) (t : Merging D) (at : Option ℕ)
      : Type 0 where
    pub step_framed : IsFramed c t.function
    pub step_code : code (shape t.function.blocks) ≡ code (shape s.function.blocks)
    pub step_refined : IsRefined t.usage (shape s.function.blocks) (shape t.function.blocks)
    pub step_measure : measure t.function at < measure s.function (some i)
    pub step_place : IsPlace t.function at
    pub step_bound : t.function.count + one_if t.optimized ≤ s.function.count + one_if s.optimized

  module _ (c : Callees) (s : Merging D) (i : ℕ) (there : has s.function.blocks i ≡ true) where
    pub forward_lem :
        IsFramed c s.function
        → AllUsed s.usage (shape s.function.blocks)
        → (minus_two == i) ≡ false
        → IsStep c s i s (next_of s.function.blocks i)
    forward_lem v used not_exit =
        let bs = s.function.blocks in
        let (j, h) = next_of_exists minus_two i bs there v.last not_exit in
        rw h (record {
          step_framed = v;
          step_code = refl;
          step_refined = IsRefined-same s.usage (shape s.function.blocks) used;
          step_measure = omega (arith, rest_from-next_of i j bs v.valid.distinct h);
          step_place = next_of-has bs i j h;
          step_bound = omega arith;
        })

    pub break_lem :
        IsFramed c s.function → AllUsed s.usage (shape s.function.blocks) → IsStep c s i s none
    break_lem v used = record {
      step_framed = v;
      step_code = refl;
      step_refined = IsRefined-same s.usage (shape s.function.blocks) used;
      step_measure = omega (arith, rest_from_pos i (indexes s.function.blocks) there);
      step_place = tt;
      step_bound = omega arith;
    }

    pub erased_lem :
        (n : ℕ) (g : Function D)
        → IsLess c n s.function g
        → IsRefined s.usage (shape s.function.blocks) (shape g.blocks)
        → IsStep c s i (record s { function = g; optimized = true }) none
    erased_lem n g l r = record {
      step_framed = l.less_framed;
      step_code = l.less_code;
      step_refined = r;
      step_measure = omega (arith, l.less_count);
      step_place = tt;
      step_bound = omega (arith, l.less_count);
    }

    pub merged_lem :
        (n : ℕ) (g : Function D)
        → IsFramed c s.function
        → (minus_one == i) ≡ false
        → next_of s.function.blocks i ≡ some n
        → IsLess c n s.function g
        → IsRefined s.usage (shape s.function.blocks) (shape g.blocks)
        → IsStep c s i (record s { function = g; optimized = true }) (prev_of g.blocks i)
    merged_lem n g v not_entry h l r =
        let bs = s.function.blocks in
        let d = v.valid.distinct in
        let ne = next_of-ne bs i n d h in
        let other : has g.blocks i ≡ true =
          ap (λ is. contains is i) l.less_indexes
          ∙ contains-retain (λ x. not (x == n)) (indexes bs) i
          ∙ ground (arith, ne, there) in
        let (j, e) = prev_of_exists minus_one i g.blocks other l.less_framed.head not_entry in
        let k = prev_of-next_of i j g.blocks l.less_framed.valid.distinct e in
        rw e (record {
          step_framed = l.less_framed;
          step_code = l.less_code;
          step_refined = r;
          step_measure = omega (
            arith,
            l.less_count,
            rest_from-next_of j i g.blocks l.less_framed.valid.distinct k,
            rest_from-without i n bs d h,
            ap (λ is. rest_from is i) l.less_indexes,
          );
          step_place = next_of_self g.blocks j i k;
          step_bound = omega (arith, l.less_count);
        })
