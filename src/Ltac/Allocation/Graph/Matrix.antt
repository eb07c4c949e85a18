-- ===== src/Ltac/Allocation/Graph/Matrix.antt =====
-- The matrix after a bit was set, and its rows as vectors.
use eddic.Prelude.{
  ℕ, zero, suc, ◌+◌, ◌*◌, ◌≤◌, ◌<◌, ◌≡◌, refl, ap, ◌∙◌, arith, true, false, ◌&&◌, ◌||◌, List, [],
  ◌∷◌, ◌==◌, length, get_or, set, contains, ltb, leb, if◌then◌else◌, Bool-cases, ==_iff, inl, inr,
}
use mathlib.Core.Bool.{not}
use native.Mathlib.Decide.{dec_lt}
use eddic.Ltac.Allocation.Graph.{BitMatrix, set_bit, is_set, adjacent, adjacency}

pub get_or-set {ℓ} :
    {A : Type ℓ} (xs : List A) (i j : ℕ) (v d : A)
    → i < length xs
    → get_or (set xs i v) j d ≡ (if j == i then v else get_or xs j d)
get_or-set [] i j v d h = absurd (omega arith)
get_or-set (x ∷ xs) zero zero v d h = refl
get_or-set (x ∷ xs) zero (suc j) v d h = ground arith
get_or-set (x ∷ xs) (suc i) zero v d h = ground arith
get_or-set (x ∷ xs) (suc i) (suc j) v d h = ground (arith, get_or-set xs i j v d)

pub length-set {ℓ} : {A : Type ℓ} (xs : List A) (i : ℕ) (v : A) → length (set xs i v) ≡ length xs
length-set [] i v = refl
length-set (x ∷ xs) zero v = refl
length-set (x ∷ xs) (suc i) v = ap suc (length-set xs i v)

row_gap : (i r s : ℕ) → i < r → i * s + s ≤ r * s
row_gap i r s h = grind arith

position-injective : (i r s j n : ℕ) → j < s → n < s → i * s + j ≡ r * s + n → (i ≡ r) × (j ≡ n)
position-injective i r s j n hj hn e = elim (dec_lt i r) [
  | yes lt ↦ absurd (omega (arith, row_gap i r s lt))
  | no ge ↦ elim (dec_lt r i) [
    | yes lt ↦ absurd (omega (arith, row_gap r i s lt))
    | no le ↦
        let same : i ≡ r = omega arith in
        let rows : i * s ≡ r * s = ap (λ i. i * s) same in (same, omega arith)
  ]
]

position-lt : (i s j : ℕ) → i < s → j < s → i * s + j < s * s
position-lt i s j hi hj = grind arith

abbrev pub IsSized : BitMatrix → Type 0
IsSized m = length m.bitset ≡ m.size * m.size

pub set_bit-IsSized : (m : BitMatrix) (i j : ℕ) → IsSized m → IsSized (set_bit m i j)
unfolding set_bit
set_bit-IsSized m i j h = length-set m.bitset (i * m.size + j) true ∙ h

both-false :
    (r i n j s : ℕ)
    → n < s
    → j < s
    → ((r == i) && (n == j)) ≡ false
    → (r * s + n == i * s + j) ≡ false
both-false r i n j s hn hj h = elim (Bool-cases (r * s + n == i * s + j)) [
  | inl same ↦
      let (e, k) = position-injective r i s n j hn hj ((==_iff (r * s + n) (i * s + j)).0 same) in
      absurd (ground arith)
  | inr other ↦ other
]

-- A bit that is set is set, and no other is.
pub is_set-set_bit :
    (m : BitMatrix) (i j r n : ℕ)
    → IsSized m
    → i < m.size
    → j < m.size
    → n < m.size
    → is_set (set_bit m i j) r n ≡ ((r == i && n == j) || is_set m r n)
unfolding set_bit is_set
is_set-set_bit m i j r n sized hi hj hn =
    let inside : i * m.size + j < length m.bitset =
      omega (arith, sized, position-lt i m.size j hi hj) in
    let read = get_or-set m.bitset (i * m.size + j) (r * m.size + n) true false inside in
    elim (Bool-cases (r == i && n == j)) [
      | inl here ↦ rw here (ground (arith, read))
      | inr other ↦ rw other (read ∙ rw (both-false r i n j m.size hn hj other) refl)
    ]

-- A row's vector has the numbers of the other nodes whose bits are set.
pub contains-adjacent :
    (m : BitMatrix) (i rounds j n : ℕ)
    → contains (adjacent m i rounds j) n
      ≡ ((leb j n && ltb n (j + rounds)) && (not (i == n) && is_set m i n))
unfolding adjacent
contains-adjacent m i zero j n = ground arith
contains-adjacent m i (suc rounds) j n = ground (arith, contains-adjacent m i rounds (j + 1) n)

-- The vector of a row, or none beyond the last.
pub get_or-adjacency :
    (m : BitMatrix) (size rounds i r : ℕ)
    → get_or (adjacency m size rounds i) r []
      ≡ (if ltb r rounds then adjacent m (i + r) size 0 else [])
unfolding adjacency
get_or-adjacency m size zero i r = ground arith
get_or-adjacency m size (suc rounds) i zero =
    let here : i + 0 ≡ i = omega arith in rw here (ground arith)
get_or-adjacency m size (suc rounds) i (suc r) =
    let next : i + 1 + r ≡ i + suc r = omega arith in
    rw (← next) (ground (arith, get_or-adjacency m size rounds (i + 1) r))
