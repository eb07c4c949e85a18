-- ===== src/Ltac/Allocation/Select/Counted.antt =====
-- The colours of a node's neighbours are no more than its degree.
use eddic.Prelude.{
  ℕ, ◌+◌, ◌≤◌, ◌≡◌, ◌≢◌, sym, ap, ◌∙◌, arith, Bool, true, false, ◌||◌, Option, none, some, List, [],
  ◌∷◌, ◌==◌, contains, length, Bool-cases, ==_iff, inl, inr, ◌⊎◌,
}
use eddic.Ltac.Allocation.Graph.{Graph}
use eddic.Ltac.Allocation.Simplify.{is_bound, binding_of, degree_loop}
use eddic.Ltac.Allocation.Select.{Allocation}

-- A node that has a colour has the one that it is bound to, or is free and no longer queued.
abbrev pub IsSettled : Graph → Allocation → List ℕ → Type 0
IsSettled g a order =
    (n c : ℕ)
    → a n ≡ some c
    → ((is_bound g n ≡ true) × (c ≡ binding_of g n))
      ⊎ ((is_bound g n ≡ false) × (contains order n ≡ false))

abbrev color_of : Option ℕ → ℕ
color_of none = 0
color_of (some c) = c

-- The colours of the neighbours, no more than their degree but for those in `bound`.
pub record IsCounted (a : Allocation) (nodes bound : List ℕ) (limit count : ℕ) : Type 0 where
  pub colors : List ℕ
  pub few : length colors + count ≤ limit
  pub covers :
      (n c : ℕ)
      → contains nodes n ≡ true
      → a n ≡ some c
      → (contains colors c || contains bound c) ≡ true

pub split_member :
    (n x : ℕ) (rest : List ℕ) → contains (x ∷ rest) n ≡ true → (n ≡ x) ⊎ (contains rest n ≡ true)
split_member n x rest m = elim (Bool-cases (n == x)) [
  | inl same ↦ inl ((==_iff n x).0 same)
  | inr other ↦ inr (rw other at m)
]

cover_first : (c d : ℕ) (u v : Bool) → c ≡ d → (((c == d) || u) || v) ≡ true
cover_first c d u v h = ground arith

cover_rest : (c d : ℕ) (u v : Bool) → (u || ((c == d) || v)) ≡ true → (((c == d) || u) || v) ≡ true
cover_rest c d u v h = ground arith

cover_skip : (c d : ℕ) (u v : Bool) → (u || v) ≡ true → (((c == d) || u) || v) ≡ true
cover_skip c d u v h = ground arith

cover_known : (u v : Bool) → v ≡ true → (u || v) ≡ true
cover_known u v h = ground arith

module _ (g : Graph) (a : Allocation) (order : List ℕ) (settled : IsSettled g a order) where
  -- the colour of a bound node
  bound_color : (n c : ℕ) → is_bound g n ≡ true → a n ≡ some c → c ≡ binding_of g n
  bound_color n c h e = elim (settled n c e) [ inl (_, same) ↦ same | inr (free, _) ↦ cc ]

  -- A queued node that is not bound has none.
  queued_color : (n c : ℕ) → is_bound g n ≡ false → contains order n ≡ true → a n ≢ some c
  queued_color n c h m e = elim (settled n c e) [ inl (bound, _) ↦ cc | inr (_, out) ↦ cc ]

  pub counted :
      (nodes bound : List ℕ) (count : ℕ)
      → IsCounted a nodes bound (degree_loop g order nodes bound count) count
  unfolding degree_loop
  counted [] bound count = record { colors = []; few = omega arith; covers = λ n c m e. cc }
  counted (x ∷ rest) bound count = elim (Bool-cases (contains order x)) [
    | inr out ↦ elim (Bool-cases (is_bound g x)) [
      | inl b ↦
          let ih = counted rest (binding_of g x ∷ bound) (count + 1) in
          rw (out, b)
            (record {
              colors = binding_of g x ∷ ih.colors;
              few = omega (arith, ih.few);
              covers = λ n c m e. elim (split_member n x rest m) [
                | inl here ↦
                    cover_first c (binding_of g x) (contains ih.colors c) (contains bound c)
                      (bound_color x c b (ap a (sym here) ∙ e))
                | inr later ↦
                    cover_rest c (binding_of g x) (contains ih.colors c) (contains bound c)
                      (ih.covers n c later e)
              ];
            })
      | inr free ↦
          let ih = counted rest bound (count + 1) in
          rw (out, free)
            (record {
              colors = color_of (a x) ∷ ih.colors;
              few = omega (arith, ih.few);
              covers = λ n c m e. elim (split_member n x rest m) [
                | inl here ↦
                    cover_first c (color_of (a x)) (contains ih.colors c) (contains bound c)
                      (sym (ap color_of (ap a (sym here) ∙ e)))
                | inr later ↦
                    cover_skip c (color_of (a x)) (contains ih.colors c) (contains bound c)
                      (ih.covers n c later e)
              ];
            })
    ]
    | inl inside ↦ elim (Bool-cases (is_bound g x)) [
      | inl b ↦ elim (Bool-cases (contains bound (binding_of g x))) [
        | inl known ↦
            let ih = counted rest bound count in
            rw (inside, b, known)
              (record {
                colors = ih.colors;
                few = ih.few;
                covers = λ n c m e. elim (split_member n x rest m) [
                  | inl here ↦
                      cover_known (contains ih.colors c) (contains bound c)
                        (ap (contains bound) (bound_color x c b (ap a (sym here) ∙ e)) ∙ known)
                  | inr later ↦ ih.covers n c later e
                ];
              })
        | inr new ↦
            let ih = counted rest (binding_of g x ∷ bound) (count + 1) in
            rw (inside, b, new)
              (record {
                colors = binding_of g x ∷ ih.colors;
                few = omega (arith, ih.few);
                covers = λ n c m e. elim (split_member n x rest m) [
                  | inl here ↦
                      cover_first c (binding_of g x) (contains ih.colors c) (contains bound c)
                        (bound_color x c b (ap a (sym here) ∙ e))
                  | inr later ↦
                      cover_rest c (binding_of g x) (contains ih.colors c) (contains bound c)
                        (ih.covers n c later e)
                ];
              })
      ]
      | inr free ↦
          let ih = counted rest bound count in
          rw (inside, free)
            (record {
              colors = ih.colors;
              few = ih.few;
              covers = λ n c m e. elim (split_member n x rest m) [
                | inl here ↦ absurd (queued_color x c free inside (ap a (sym here) ∙ e))
                | inr later ↦ ih.covers n c later e
              ];
            })
    ]
  ]
