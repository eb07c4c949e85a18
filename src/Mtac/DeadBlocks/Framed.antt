-- ===== src/Mtac/DeadBlocks/Framed.antt =====
-- src/mtac/remove_dead_basic_blocks.cpp: the first and the last block, the calls that are forgotten, and
-- the block that is removed.
use mathlib.Core.Bool.{not}
use Prim.Native.Nat.{◌-◌, ◌^◌, ◌%◌}
use eddic.Prelude.{
  both, false_ne, ℕ, ◌+◌, ◌≡◌, refl, sym, ap, ◌∙◌, arith, Bool, true, false, ◌&&◌, ◌||◌, Option,
  none, some, List, [], ◌∷◌, ◌==◌, contains, retain, if◌then◌else◌, Bool-cases, Option-cases, inl,
  inr, ==_iff, IsDistinct, ◌>>=◌,
}
use eddic.Mtac.Operator
use eddic.Mtac.Operator.{same}
use eddic.Mtac.Quadruple.{Quadruple}
use eddic.Mtac.Function.{Block, indexes, next_of, prev_from, prev_of}
use eddic.Mtac.Function.Edges.{count, has, count-contains, contains-count}
use eddic.Mtac.CallGraph.{Edge}
use eddic.Mtac.DeadBlocks.{forget_call, forget_calls}
use eddic.Mtac.DeadBlocks.Live.{precedes}
use eddic.Mtac.DeadBlocks.Reached.{precedes-first}

-- the last index of a list
abbrev pub last_of : List ℕ → Option ℕ
last_of [] = none
last_of (i ∷ []) = some i
last_of (i ∷ j ∷ is) = last_of (j ∷ is)

abbrev pub head_of : List ℕ → Option ℕ
head_of [] = none
head_of (i ∷ is) = some i

abbrev pub without : ℕ → List ℕ → List ℕ
without p is = retain (λ x. not (x == p)) is

pub head_of-without :
    (p h : ℕ) (is : List ℕ)
    → head_of is ≡ some h
    → (h == p) ≡ false
    → head_of (without p is) ≡ some h
head_of-without p h [] e n = cc
head_of-without p h (i ∷ is) e n = ground (arith, e, n)

last_of-cons : (i l : ℕ) (is : List ℕ) → last_of is ≡ some l → last_of (i ∷ is) ≡ some l
last_of-cons i l [] e = cc
last_of-cons i l (j ∷ is) e = e

pub last_of-without :
    (p l : ℕ) (is : List ℕ)
    → last_of is ≡ some l
    → (l == p) ≡ false
    → last_of (without p is) ≡ some l
last_of-without p l [] e n = cc
last_of-without p l (i ∷ []) e n = ground (arith, e, n)
last_of-without p l (i ∷ j ∷ is) e n =
    let rest = last_of-without p l (j ∷ is) e n in
    elim (Bool-cases (i == p)) [
      | inl gone ↦ rw gone rest
      | inr stays ↦ rw stays (last_of-cons i l (without p (j ∷ is)) rest)
    ]

pub last_of-contains : (l : ℕ) (is : List ℕ) → last_of is ≡ some l → contains is l ≡ true
last_of-contains l [] e = cc
last_of-contains l (i ∷ []) e = ground (arith, e)
last_of-contains l (i ∷ j ∷ is) e = ground (arith, last_of-contains l (j ∷ is) e)

-- `without` takes nothing from the blocks that pass a test which the block itself does not.
pub retain-without :
    (p : ℕ) (is live : List ℕ)
    → contains live p ≡ false
    → retain (contains live) (without p is) ≡ retain (contains live) is
retain-without p [] live h = refl
retain-without p (i ∷ is) live h = elim (Bool-cases (i == p)) [
  | inl gone ↦
      let k : contains live i ≡ false = ap (contains live) ((==_iff i p).0 gone) ∙ h in
      rw (gone, k) (retain-without p is live h)
  | inr stays ↦ rw stays (elim (Bool-cases (contains live i)) [
    | inl alive ↦ rw alive (ap (λ l. i ∷ l) (retain-without p is live h))
    | inr dead ↦ rw dead (retain-without p is live h)
  ])
]

pub count-eq-contains :
    (a : ℕ) (xs ys : List ℕ) → count a xs ≡ count a ys → contains xs a ≡ contains ys a
count-eq-contains a xs ys h = elim (Bool-cases (contains xs a)) [
  | inl x ↦ elim (Bool-cases (contains ys a)) [
    | inl y ↦ x ∙ sym y
    | inr y ↦ absurd (omega (arith, contains-count a xs x, count-contains a ys y))
  ]
  | inr x ↦ elim (Bool-cases (contains ys a)) [
    | inl y ↦ absurd (omega (arith, contains-count a ys y, count-contains a xs x))
    | inr y ↦ x ∙ sym y
  ]
]

-- whether the call graph has an edge, and whether it has one for every CALL
abbrev pub knows : List Edge → ℕ → ℕ → Bool
knows [] s t = false
knows (e ∷ rest) s t = (e.source == s && e.target == t) || knows rest s t

abbrev pub calls_known : ℕ → List Edge → {D : Type 0} → List (Quadruple D) → Bool
calls_known source edges [] = true
calls_known source edges (q ∷ rest) =
    (if same q.op Operator.call
      then elim q.m_function [ none ↦ false | some f ↦ knows edges source f ]
      else true)
    && calls_known source edges rest

forget_call_lem :
    (s t : ℕ) (edges : List Edge)
    → knows edges s t ≡ true
    → (es : List Edge) × (forget_call s t edges ≡ some es)
      × ((a b : ℕ) → knows es a b ≡ knows edges a b)
unfolding forget_call
forget_call_lem s t [] h = cc
forget_call_lem s t (e ∷ rest) h = elim (Bool-cases (e.source == s && e.target == t)) [
  | inl here ↦
      (record e { count = (e.count + 2 ^ 64 - 1) % 2 ^ 64 } ∷ rest, rw here refl, λ a b. refl)
  | inr there ↦
      let (es, done, k) = forget_call_lem s t rest (rw there at h) in
      (
        e ∷ es,
        rw (there, done, ◌>>=◌) refl,
        λ a b. ap (λ r. (e.source == a && e.target == b) || r) (k a b),
      )
]

pub calls_known-same :
    (source : ℕ) (edges es : List Edge) {D : Type 0} (qs : List (Quadruple D))
    → ((a b : ℕ) → knows es a b ≡ knows edges a b)
    → calls_known source edges qs ≡ true
    → calls_known source es qs ≡ true
calls_known-same source edges es [] keep h = refl
calls_known-same source edges es (q ∷ rest) keep h = elim (Bool-cases (same q.op Operator.call)) [
  | inl call ↦ elim (Option-cases q.m_function) [
    | inl e ↦ absurd (false_ne (rw (call, e) at h))
    | inr (f, e) ↦
        let k = both (knows edges source f) (calls_known source edges rest) (rw (call, e) at h) in
        rw (call, e, keep source f, k.0) (calls_known-same source edges es rest keep k.1)
  ]
  | inr other ↦ rw other (calls_known-same source edges es rest keep (rw other at h))
]

module _ (source : ℕ) {D : Type 0} where
  pub forget_calls_lem :
      (qs : List (Quadruple D)) (edges : List Edge)
      → calls_known source edges qs ≡ true
      → (es : List Edge) × (forget_calls source qs edges ≡ some es)
        × ((a b : ℕ) → knows es a b ≡ knows edges a b)
  unfolding forget_calls
  forget_calls_lem [] edges h = (edges, refl, λ a b. refl)
  forget_calls_lem (q ∷ rest) edges h = elim (Bool-cases (same q.op Operator.call)) [
    | inl call ↦ elim (Option-cases q.m_function) [
      | inl e ↦ absurd (false_ne (rw (call, e) at h))
      | inr (f, e) ↦
          let k = both (knows edges source f) (calls_known source edges rest) (rw (call, e) at h) in
          let (es, done, keep) = forget_call_lem source f edges k.0 in
          let (fs, done', keep') =
            forget_calls_lem rest es (calls_known-same source edges es rest keep k.1) in
          (fs, rw (call, e, ◌>>=◌) (rw (done, ◌>>=◌) done'), λ a b. keep' a b ∙ keep a b)
    ]
    | inr other ↦
        let (fs, done, keep) = forget_calls_lem rest edges (rw other at h) in
        (fs, rw (other, ◌>>=◌) done, keep)
  ]

module _ {D : Type 0} where
  -- Between the first and the last block a block has two neighbours.
  prev_from_exists :
      (o p : ℕ) (bs : List (Block D))
      → has bs p ≡ true
      → (q : ℕ) × (prev_from (some o) bs p ≡ some q)
  unfolding prev_from
  prev_from_exists o p [] h = cc
  prev_from_exists o p (b ∷ bs) h = elim (Bool-cases (b.index == p)) [
    | inl here ↦ (o, rw here refl)
    | inr there ↦ let (q, e) = prev_from_exists b.index p bs (ground (arith, h)) in (q, rw there e)
  ]

  pub prev_of_exists :
      (h p : ℕ) (bs : List (Block D))
      → has bs p ≡ true
      → head_of (indexes bs) ≡ some h
      → (h == p) ≡ false
      → (q : ℕ) × (prev_of bs p ≡ some q)
  unfolding prev_from
  prev_of_exists h p [] m e n = cc
  prev_of_exists h p (b ∷ bs) m e n =
      let k : (b.index == p) ≡ false = ground (arith, e, n) in
      let (q, r) = prev_from_exists b.index p bs (ground (arith, m)) in (q, rw k r)

  pub next_of_exists :
      (l p : ℕ) (bs : List (Block D))
      → has bs p ≡ true
      → last_of (indexes bs) ≡ some l
      → (l == p) ≡ false
      → (q : ℕ) × (next_of bs p ≡ some q)
  unfolding next_of
  next_of_exists l p [] m e n = cc
  next_of_exists l p (b ∷ []) m e n = absurd (false_ne (ground (arith, e, n, m)))
  next_of_exists l p (b ∷ c ∷ bs) m e n = elim (Bool-cases (b.index == p)) [
    | inl here ↦ (c.index, rw here refl)
    | inr there ↦
        let (q, r) = next_of_exists l p (c ∷ bs) (ground (arith, m)) e n in (q, rw there r)
  ]

  prev_from-precedes :
      (o p q : ℕ) (bs : List (Block D))
      → contains (indexes bs) o ≡ false
      → IsDistinct (indexes bs)
      → prev_from (some o) bs p ≡ some q
      → precedes (o ∷ indexes bs) q p ≡ true
  unfolding prev_from
  prev_from-precedes o p q [] n d h = cc
  prev_from-precedes o p q (b ∷ bs) n d h = elim (Bool-cases (b.index == p)) [
    | inl here ↦ let e : o ≡ q = (let k = rw here at h in cc) in ground (arith, here)
    | inr there ↦
        let ih = prev_from-precedes b.index p q bs d.0 d.1 (rw there at h) in
        elim (Bool-cases (o == q)) [
          | inl same ↦
              let k = precedes-first (b.index ∷ indexes bs) q p ih in
              let j = ap (contains (b.index ∷ indexes bs)) ((==_iff o q).0 same) in
              absurd (false_ne (sym n ∙ j ∙ k))
          | inr other ↦ rw other ih
        ]
  ]

  pub prev_of-precedes :
      (p q : ℕ) (bs : List (Block D))
      → IsDistinct (indexes bs)
      → prev_of bs p ≡ some q
      → precedes (indexes bs) q p ≡ true
  unfolding prev_from
  prev_of-precedes p q [] d h = cc
  prev_of-precedes p q (b ∷ bs) d h = elim (Bool-cases (b.index == p)) [
    | inl here ↦ let k = rw here at h in cc
    | inr there ↦ prev_from-precedes b.index p q bs d.0 d.1 (rw there at h)
  ]
