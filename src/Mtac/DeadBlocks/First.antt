-- ===== src/Mtac/DeadBlocks/First.antt =====
-- src/mtac/remove_dead_basic_blocks.cpp: the first block that is dead.
use Prim.Native.Nat.{◌-◌}
use eddic.Prelude.{
  false_ne, ℕ, suc, ◌≤◌, ◌<◌, ◌≡◌, refl, sym, ap, ◌∙◌, arith, Bool, true, false, none, some, List,
  [], ◌∷◌, ◌==◌, ltb, contains, retain, length, if◌then◌else◌, Bool-cases, inl, inr, ==_iff,
  IsDistinct,
}
use eddic.Word.{minus_one, is_negative}
use eddic.Mtac.Operator.{same}
use eddic.Mtac.Quadruple.{Quadruple}
use eddic.Mtac.Function.{Block, Function, indexes, minus_two}
use eddic.Mtac.Function.Edges.{all_blocks, has}
use eddic.Mtac.CallGraph.{Edge}
use eddic.Mtac.DeadBlocks.{first_dead}
use eddic.Mtac.DeadBlocks.Live.{precedes}
use eddic.Mtac.DeadBlocks.Reached.{IsReached}
use mathlib.Core.Path.{subst}
use eddic.Mtac.Function.Valid.{IsValid}
use eddic.Mtac.DeadBlocks.Reached.{special, forward, precedes-contains}
use eddic.Mtac.DeadBlocks.Framed.{head_of, last_of, calls_known}

not_before_itself :
    (p q : ℕ) (is : List ℕ) → contains is p ≡ false → precedes (p ∷ is) q p ≡ true → ⊥
not_before_itself p q is d h = elim (Bool-cases (p == q)) [
  | inl same ↦ let k = rw same at h in cc
  | inr other ↦ let k = precedes-contains is q p (rw other at h) in cc
]

pub not_special : (m p : ℕ) → is_negative m ≡ true → is_negative p ≡ false → (m == p) ≡ false
not_special m p h k = ground (arith, h, k)

pub count_pred : (n m : ℕ) → n ≡ m → 0 < m → suc (n - 1) ≡ n
count_pred n m e h = omega arith

pub length_pos : {D : Type 0} (bs : List (Block D)) (p : ℕ) → has bs p ≡ true → 0 < length bs
length_pos [] p h = absurd (false_ne h)
length_pos (b ∷ bs) p h = omega arith

pub ltb_irrefl : (n : ℕ) → ltb n n ≡ false
ltb_irrefl n = ground arith

pub live_of_if : (a b : Bool) → (if a then b else false) ≡ true → a ≡ true
live_of_if true b h = refl
live_of_if false b h = h

pub both_if : (a b : Bool) → a ≡ true → b ≡ true → (if a then b else false) ≡ true
both_if a b h k = ground (arith, h, k)

pub IsReached-has : {D : Type 0} (bs : List (Block D)) (x : ℕ) → IsReached bs x → has bs x ≡ true
IsReached-has bs x (special _ h n) = h
IsReached-has bs x (forward _ y r before edge) = precedes-contains (indexes bs) y x before

pub two_indexes :
    (is : List ℕ) → head_of is ≡ some minus_one → last_of is ≡ some minus_two → 2 ≤ length is
two_indexes [] h l = cc
two_indexes (i ∷ []) h l =
    let a : i ≡ minus_one = cc in let b : i ≡ minus_two = cc in absurd (omega (arith, a, b))
two_indexes (i ∷ j ∷ is) h l = omega arith

-- A function whose blocks stand between the entry and the exit, and whose calls the call graph has.
pub record IsReady {D : Type 0} (source : ℕ) (edges : List Edge) (f : Function D) : Type 0 where
  pub valid : IsValid f
  pub head : head_of (indexes f.blocks) ≡ some minus_one
  pub last : last_of (indexes f.blocks) ≡ some minus_two
  pub known : all_blocks (calls_known source edges) f.blocks ≡ true

pub all_blocks_mono :
    {D : Type 0} (s t : List (Quadruple D) → Bool) (bs : List (Block D))
    → ((qs : List (Quadruple D)) → s qs ≡ true → t qs ≡ true)
    → all_blocks s bs ≡ true
    → all_blocks t bs ≡ true
all_blocks_mono s t [] h k = refl
all_blocks_mono s t (b ∷ bs) h k = ground (arith, h b.statements, all_blocks_mono s t bs h, k)

module _ {D : Type 0} (live : List ℕ) where
  pub first_dead-none :
      (bs : List (Block D))
      → first_dead live bs ≡ none
      → retain (contains live) (indexes bs) ≡ indexes bs
  unfolding first_dead
  first_dead-none [] h = refl
  first_dead-none (b ∷ bs) h = elim (Bool-cases (contains live b.index)) [
    | inl alive ↦ rw alive (ap (λ l. b.index ∷ l) (first_dead-none bs (rw alive at h)))
    | inr dead ↦ let k = rw dead at h in cc
  ]

  -- The first dead block: it is dead, and every block before it is live.
  pub record IsFirst (b : Block D) (bs : List (Block D)) : Type 0 where
    pub first_has : has bs b.index ≡ true
    pub first_not_live : contains live b.index ≡ false
    pub first_test :
        (test : List (Quadruple D) → Bool) → all_blocks test bs ≡ true → test b.statements ≡ true
    pub first_before : (q : ℕ) → precedes (indexes bs) q b.index ≡ true → contains live q ≡ true

  pub first_dead-some :
      (b : Block D) (bs : List (Block D))
      → IsDistinct (indexes bs)
      → first_dead live bs ≡ some b
      → IsFirst b bs
  unfolding first_dead
  first_dead-some b [] d h = cc
  first_dead-some b (c ∷ bs) d h = elim (Bool-cases (contains live c.index)) [
    | inl alive ↦
        let r = first_dead-some b bs d.1 (rw alive at h) in
        record {
          first_has = ground (arith, r.first_has);
          first_not_live = r.first_not_live;
          first_test = λ test k. ground (arith, r.first_test test, k);
          first_before = λ q m. elim (Bool-cases (c.index == q)) [
            | inl same ↦ sym (ap (contains live) ((==_iff c.index q).0 same)) ∙ alive
            | inr other ↦ r.first_before q (rw other at m)
          ];
        }
    | inr dead ↦
        let e : c ≡ b = (let k = rw dead at h in cc) in
        subst (λ x. IsFirst x (c ∷ bs)) e
          (record {
            first_has = ground arith;
            first_not_live = dead;
            first_test = λ test k. ground (arith, k);
            first_before = λ q m. absurd (not_before_itself c.index q (indexes bs) d.0 m);
          })
  ]
