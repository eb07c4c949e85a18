-- ===== src/Ltac/Allocation/Graph/Gathered.antt =====
-- The two tables of a graph, from registers to indices and back.
use eddic.Prelude.{
  ℕ, zero, suc, ◌<◌, ◌≡◌, refl, sym, ap, ◌∙◌, arith, true, false, Option, none, some, List, [], ◌∷◌,
  ◌++◌, ◌==◌, length, get_or, contains, ltb, Bool-cases, Option-cases, ==_iff, inl, inr, ◌⊎◌,
}
use mathlib.Core.Option.{some-injective}
use mathlib.Core.Path.{subst}
use eddic.Ltac.Allocation.Graph.{
  Graph, PseudoRegister, size, find_index, index_of, pseudo_of, unnamed, gather, gather_all,
  no_graph,
}

get_or-append :
    {A : Type 0} (xs ys : List A) (i : ℕ) (d : A)
    → i < length xs
    → get_or (xs ++ ys) i d ≡ get_or xs i d
get_or-append [] ys i d l = absurd (omega arith)
get_or-append (x ∷ xs) ys zero d l = refl
get_or-append (x ∷ xs) ys (suc i) d l = get_or-append xs ys i d (omega arith)

get_or-append_last : {A : Type 0} (xs : List A) (x d : A) → get_or (xs ++ x ∷ []) (length xs) d ≡ x
get_or-append_last [] x d = refl
get_or-append_last (y ∷ xs) x d = get_or-append_last xs x d

length-append_last : {A : Type 0} (xs : List A) (x : A) → length (xs ++ x ∷ []) ≡ suc (length xs)
length-append_last [] x = refl
length-append_last (y ∷ xs) x = ap suc (length-append_last xs x)

none-some : (i : ℕ) → ◌≡◌ {A = Option ℕ} none (some i) → ⊥
none-some i e = cc

-- The tables are inverse to each other.
pub record IsIndexed (g : Graph) : Type 0 where
  pub registers :
      (r i : ℕ) → find_index g.pseudo_to_index r ≡ some i → (i < size g) × ((pseudo_of g i).reg ≡ r)
  pub indices : (i : ℕ) → i < size g → find_index g.pseudo_to_index (pseudo_of g i).reg ≡ some i

module _ (g : Graph) (p : PseudoRegister) (new : find_index g.pseudo_to_index p.reg ≡ none) where
  abbrev grown : Graph
  grown = record g {
    pseudo_to_index = (p.reg, length g.index_to_pseudo) ∷ g.pseudo_to_index;
    index_to_pseudo = g.index_to_pseudo ++ p ∷ [];
  }

  gather-grown : gather g p ≡ grown
  unfolding gather
  gather-grown = rw (gather, new) refl

  size-grown : size grown ≡ suc (size g)
  unfolding size
  size-grown = length-append_last g.index_to_pseudo p

  pseudo_of-last : pseudo_of grown (size g) ≡ p
  unfolding pseudo_of size
  pseudo_of-last = get_or-append_last g.index_to_pseudo p unnamed

  pseudo_of-grown : (i : ℕ) → i < size g → pseudo_of grown i ≡ pseudo_of g i
  unfolding pseudo_of size
  pseudo_of-grown i l = get_or-append g.index_to_pseudo (p ∷ []) i unnamed l

  find_index-here :
      (r : ℕ) → (p.reg == r) ≡ true → find_index grown.pseudo_to_index r ≡ some (size g)
  unfolding find_index size
  find_index-here r same = rw same refl

  find_index-there :
      (r : ℕ)
      → (p.reg == r) ≡ false
      → find_index grown.pseudo_to_index r ≡ find_index g.pseudo_to_index r
  unfolding find_index
  find_index-there r other = rw other refl

  grown-registers :
      (r i : ℕ)
      → IsIndexed g
      → find_index grown.pseudo_to_index r ≡ some i
      → (i < size grown) × ((pseudo_of grown i).reg ≡ r)
  grown-registers r i h e = elim (Bool-cases (p.reg == r)) [
    | inl same ↦
        let last : size g ≡ i = some-injective (size g) i (sym (find_index-here r same) ∙ e) in
        (
          omega (arith, size-grown, last),
          sym (ap (λ i. (pseudo_of grown i).reg) last)
              ∙ (ap (λ q. q.reg) pseudo_of-last ∙ (==_iff p.reg r).0 same),
        )
    | inr other ↦
        let (l, k) = h.registers r i (sym (find_index-there r other) ∙ e) in
        (omega (arith, size-grown, l), ap (λ q. q.reg) (pseudo_of-grown i l) ∙ k)
  ]

  new-index : (i r : ℕ) → find_index g.pseudo_to_index r ≡ some i → (p.reg == r) ≡ false
  new-index i r e = elim (Bool-cases (p.reg == r)) [
    | inl same ↦
        let absent = sym (ap (find_index g.pseudo_to_index) ((==_iff p.reg r).0 same)) ∙ new in
        absurd (none-some i (sym absent ∙ e))
    | inr other ↦ other
  ]

  grown-indices :
      (i : ℕ)
      → IsIndexed g
      → i < size grown
      → find_index grown.pseudo_to_index (pseudo_of grown i).reg ≡ some i
  grown-indices i h l = elim (Bool-cases (ltb i (size g))) [
    | inl old ↦
        let older : i < size g = ground arith in
        let found = h.indices i older in
        ap (λ q. find_index grown.pseudo_to_index q.reg) (pseudo_of-grown i older)
        ∙ (find_index-there (pseudo_of g i).reg (new-index i (pseudo_of g i).reg found) ∙ found)
    | inr latest ↦
        let last : i ≡ size g = ground (arith, size-grown) in
        ap (λ i. find_index grown.pseudo_to_index (pseudo_of grown i).reg) last
        ∙ (ap (λ q. find_index grown.pseudo_to_index q.reg) pseudo_of-last
            ∙ (find_index-here p.reg ((==_iff p.reg p.reg).1 refl) ∙ ap some (sym last)))
  ]

gather-kept :
    (g : Graph) (p : PseudoRegister) (i : ℕ)
    → find_index g.pseudo_to_index p.reg ≡ some i
    → g ≡ gather g p
unfolding gather
gather-kept g p i found = rw (gather, found) refl

gather-IsIndexed : (g : Graph) (p : PseudoRegister) → IsIndexed g → IsIndexed (gather g p)
gather-IsIndexed g p h = elim (Option-cases (find_index g.pseudo_to_index p.reg)) [
  | inl new ↦ subst IsIndexed (sym (gather-grown g p new)) (record {
    registers = λ r i e. grown-registers g p new r i h e;
    indices = λ i l. grown-indices g p new i h l;
  })
  | inr (i, found) ↦ subst IsIndexed (gather-kept g p i found) h
]

pub gather_all-IsIndexed :
    (ps : List PseudoRegister) (g : Graph) → IsIndexed g → IsIndexed (gather_all ps g)
unfolding gather_all
gather_all-IsIndexed [] g h = h
gather_all-IsIndexed (p ∷ rest) g h =
    gather_all-IsIndexed rest (gather g p) (gather-IsIndexed g p h)

pub no_graph-IsIndexed : IsIndexed no_graph
unfolding find_index size
no_graph-IsIndexed = record {
  registers = λ r i e. absurd (none-some i e);
  indices = λ i l. absurd (omega arith);
}

-- whether a register has an index
abbrev pub HasIndex : Graph → ℕ → Type 0
HasIndex g r = (i : ℕ) × (find_index g.pseudo_to_index r ≡ some i)

gather-HasIndex : (g : Graph) (p : PseudoRegister) (r : ℕ) → HasIndex g r → HasIndex (gather g p) r
gather-HasIndex g p r (i, e) = elim (Option-cases (find_index g.pseudo_to_index p.reg)) [
  | inl new ↦
      subst (λ h. HasIndex h r) (sym (gather-grown g p new))
        (i, find_index-there g p new r (new-index g p new i r e) ∙ e)
  | inr (j, found) ↦ subst (λ h. HasIndex h r) (gather-kept g p j found) (i, e)
]

gather-HasIndex_self : (g : Graph) (p : PseudoRegister) → HasIndex (gather g p) p.reg
gather-HasIndex_self g p = elim (Option-cases (find_index g.pseudo_to_index p.reg)) [
  | inl new ↦
      subst (λ h. HasIndex h p.reg) (sym (gather-grown g p new))
        (size g, find_index-here g p new p.reg ((==_iff p.reg p.reg).1 refl))
  | inr (j, found) ↦ subst (λ h. HasIndex h p.reg) (gather-kept g p j found) (j, found)
]

abbrev pub numbers_of : List PseudoRegister → List ℕ
numbers_of [] = []
numbers_of (p ∷ rest) = p.reg ∷ numbers_of rest

pub gather_all-HasIndex :
    (ps : List PseudoRegister) (g : Graph) (r : ℕ)
    → HasIndex g r ⊎ (contains (numbers_of ps) r ≡ true)
    → HasIndex (gather_all ps g) r
unfolding gather_all
gather_all-HasIndex [] g r (inl h) = h
gather_all-HasIndex [] g r (inr m) = cc
gather_all-HasIndex (p ∷ rest) g r (inl h) =
    gather_all-HasIndex rest (gather g p) r (inl (gather-HasIndex g p r h))
gather_all-HasIndex (p ∷ rest) g r (inr m) = elim (Bool-cases (r == p.reg)) [
  | inl same ↦ gather_all-HasIndex rest (gather g p) r (
      inl
        (subst (HasIndex (gather g p)) (sym ((==_iff r p.reg).0 same)) (gather-HasIndex_self g p)))
  | inr other ↦ gather_all-HasIndex rest (gather g p) r (inr (rw other at m))
]

index_of-found :
    (g : Graph) (p : PseudoRegister) (i : ℕ)
    → find_index g.pseudo_to_index p.reg ≡ some i
    → index_of g p ≡ i
unfolding index_of
index_of-found g p i e = rw (index_of, e) refl

-- The two conversions of a graph are inverse: a register that was gathered has an index below the
-- size, which stands for the register of that number, and an index below the size is the index of the
-- register it stands for.
pub convert_convert :
    (ps : List PseudoRegister) (p : PseudoRegister) (i : ℕ)
    → contains (numbers_of ps) p.reg ≡ true
    → i < size (gather_all ps no_graph)
    → (index_of (gather_all ps no_graph) p < size (gather_all ps no_graph))
      × ((pseudo_of (gather_all ps no_graph) (index_of (gather_all ps no_graph) p)).reg ≡ p.reg)
      × (index_of (gather_all ps no_graph) (pseudo_of (gather_all ps no_graph) i) ≡ i)
convert_convert ps p i m l =
    let g = gather_all ps no_graph in
    let h = gather_all-IsIndexed ps no_graph no_graph-IsIndexed in
    let (j, e) = gather_all-HasIndex ps no_graph p.reg (inr m) in
    let (below, same) = h.registers p.reg j e in
    let at_j = index_of-found g p j e in
    (rw at_j below, rw at_j same, index_of-found g (pseudo_of g i) i (h.indices i l))
