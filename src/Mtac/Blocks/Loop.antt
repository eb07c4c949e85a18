-- ===== src/Mtac/Blocks/Loop.antt =====
-- src/mtac/BasicBlockExtractor.cpp, the first loop: the statements are cut behind every jump.
use Prim.Native.String.{String}
use mathlib.Core.Bool.{not}
use eddic.Prelude.{
  ℕ, suc, ◌+◌, ◌≤◌, ◌<◌, ◌≡◌, refl, sym, ap, ◌∙◌, arith, Bool, true, false, ◌||◌, ◌⊎◌, inl, inr,
  some, List, [], ◌∷◌, ◌++◌, ◌==◌, contains, length, length-append, if◌then◌else◌, Bool-cases,
  >>=-eq-some, IsDistinct, retain,
}
use mathlib.Core.List.{append_assoc, append-nil}
use mathlib.Core.Path.{subst}
use eddic.Word.{minus_one}
use eddic.Mtac.Operator
use eddic.Mtac.Operator.{is_if, is_if_false, same}
use eddic.Mtac.Quadruple.{Quadruple}
use eddic.Mtac.Function.{Block, Function, indexes, minus_two}
use eddic.Mtac.Function.Edges.{has, successors_of, predecessors_of}
use eddic.Mtac.Function.Merge.{block_of, append_bb}
use eddic.Mtac.Blocks.{
  Extraction, ends_block, append_last, start_block, start_call, start_leader, emplace, start_label,
  extract_statement, extract_loop, safe,
}
use eddic.Mtac.Blocks.Cut.{
  last_ends, any_early, flat, has-append, append-IsDistinct, successors-append, predecessors-append,
  any_early-append, last_ends-append, flat-append, indexes-append_last, successors-append_last,
  predecessors-append_last, length-append_last, any_early-append_last, last_ends-append_last,
  flat-append_last,
}

false_of_if : (b : Bool) → (if b then true else false) ≡ false → b ≡ false
false_of_if true h = h
false_of_if false h = h

module _ {D : Type 0} where
  abbrev pub unlabelled : List (Quadruple D) → List (Quadruple D)
  unlabelled qs = retain (λ q. not (same q.op Operator.label)) qs

  unlabelled-cons :
      (q : Quadruple D) (rest : List (Quadruple D))
      → unlabelled (q ∷ []) ++ unlabelled rest ≡ unlabelled (q ∷ rest)
  unlabelled-cons q rest = elim (Bool-cases (same q.op Operator.label)) [
    | inl label ↦ rw label refl
    | inr other ↦ rw other refl
  ]

  -- The state of the first loop, once it has put the statements `before` in blocks.
  pub record IsCut (f : Function D) (leader : Bool) (before : List (Quadruple D)) : Type 0 where
    pub entry : has f.blocks minus_one ≡ true
    pub distinct : IsDistinct (indexes f.blocks)
    pub counted : f.count ≡ length f.blocks
    pub numbered : (x : ℕ) → has f.blocks x ≡ true → (x ≤ f.index) ⊎ (x ≡ minus_one)
    pub no_successors : (a : ℕ) → successors_of f.blocks a ≡ []
    pub no_predecessors : (a : ℕ) → predecessors_of f.blocks a ≡ []
    pub early : any_early f.blocks ≡ false
    pub leads : leader ≡ false → last_ends f.blocks ≡ false
    pub kept : flat f.blocks ≡ before

  append_bb-IsCut :
      (f : Function D) (leader : Bool) (before : List (Quadruple D))
      → IsCut f leader before
      → suc f.index < minus_two
      → IsCut (append_bb f) false before
  unfolding append_bb
  append_bb-IsCut f leader before c bound =
      let i = suc f.index in
      let bs = f.blocks in
      let new : has bs i ≡ false = ground (arith, c.numbered i) in
      record {
        entry = has-append i bs minus_one ∙ ap (λ r. r || minus_one == i) c.entry;
        distinct = append-IsDistinct i bs c.distinct new;
        counted = omega (arith, c.counted, length-append {0} bs (block_of {D = D} i ∷ []));
        numbered = λ x m. ground (arith, c.numbered x, has-append i bs x, m);
        no_successors = λ a. successors-append i bs a ∙ c.no_successors a;
        no_predecessors = λ a. predecessors-append i bs a ∙ c.no_predecessors a;
        early = any_early-append i bs ∙ c.early;
        leads = λ _. last_ends-append i bs;
        kept = flat-append i bs ∙ c.kept;
      }

  index-append_bb : (f : Function D) → (append_bb f).index ≤ suc f.index
  unfolding append_bb
  index-append_bb f = omega arith

  abbrev emplaced : Quadruple D → Function D → Function D
  emplaced q f = record f { blocks = append_last q f.blocks }

  last_ends-emplaced :
      (q : Quadruple D) (bs : List (Block D))
      → has bs minus_one ≡ true
      → (last_ends (append_last q bs) ≡ ends_block q)
        × (flat (append_last q bs) ≡ flat bs ++ q ∷ [])
  last_ends-emplaced q [] h = cc
  last_ends-emplaced q (b ∷ bs) h = (last_ends-append_last q b bs, flat-append_last q b bs)

  emplaced-IsCut :
      (q : Quadruple D) (f : Function D) (before : List (Quadruple D))
      → IsCut f false before
      → IsCut (emplaced q f) (if ends_block q then true else false) (before ++ q ∷ [])
  emplaced-IsCut q f before c =
      let bs = f.blocks in
      let e = indexes-append_last q bs in
      let (last, all) = last_ends-emplaced q bs c.entry in
      record {
        entry = ap (λ l. contains l minus_one) e ∙ c.entry;
        distinct = rw e c.distinct;
        counted = c.counted ∙ sym (length-append_last q bs);
        numbered = λ x m. c.numbered x (sym (ap (λ l. contains l x) e) ∙ m);
        no_successors = λ a. successors-append_last q bs a ∙ c.no_successors a;
        no_predecessors = λ a. predecessors-append_last q bs a ∙ c.no_predecessors a;
        early = any_early-append_last q bs (c.leads refl) ∙ c.early;
        leads = λ h. last ∙ false_of_if (ends_block q) h;
        kept = all ∙ ap (λ l. l ++ q ∷ []) c.kept;
      }

  -- A statement that starts no block follows one that ends none.
  abbrev IsLed : ℕ → Extraction D → List (Quadruple D) → Type 0
  IsLed last e before =
      IsCut e.function false before × (e.function.index ≤ suc last) × (e.next_is_leader ≡ false)

  started-IsLed :
      (e : Extraction D) (before : List (Quadruple D))
      → IsCut e.function e.next_is_leader before
      → suc e.function.index < minus_two
      → IsLed e.function.index (start_block e) before
  unfolding start_block
  started-IsLed e before c bound =
      (append_bb-IsCut e.function e.next_is_leader before c bound, index-append_bb e.function, refl)

  leader-IsLed :
      (e : Extraction D) (before : List (Quadruple D))
      → IsCut e.function e.next_is_leader before
      → suc e.function.index < minus_two
      → IsLed e.function.index (start_leader e) before
  unfolding start_leader
  leader-IsLed e before c bound = elim (Bool-cases e.next_is_leader) [
    | inl leader ↦ rw leader (started-IsLed e before c bound)
    | inr follows ↦ rw follows (subst (λ l. IsCut e.function l before) follows c, omega arith, refl)
  ]

  start_leader-follows : (e : Extraction D) → e.next_is_leader ≡ false → start_leader e ≡ e
  unfolding start_leader
  start_leader-follows e h = rw h refl

  start_call-cases :
      (names : ℕ → String) (q : Quadruple D) (e e' : Extraction D)
      → start_call names q e ≡ some e'
      → (e' ≡ e) ⊎ (e' ≡ start_block e)
  unfolding start_call
  start_call-cases names q e e' h = elim (Bool-cases (same q.op Operator.call)) [
    | inl call ↦
        let (f, m, k) =
          >>=-eq-some q.m_function (λ f. some (if safe (names f) then e else start_block e))
            (rw call at h) in
        elim (Bool-cases (safe (names f))) [
          | inl known ↦ inl (let j = rw known at k in cc)
          | inr unknown ↦ inr (let j = rw unknown at k in cc)
        ]
    | inr other ↦ inl (let j = rw other at h in cc)
  ]

  start_call-IsLed :
      (names : ℕ → String) (q : Quadruple D) (e e' : Extraction D) (before : List (Quadruple D))
      → IsCut e.function e.next_is_leader before
      → suc e.function.index < minus_two
      → start_call names q e ≡ some e'
      → IsLed e.function.index (start_leader e') before
  start_call-IsLed names q e e' before c bound h = elim (start_call-cases names q e e' h) [
    | inl same ↦ rw same (leader-IsLed e before c bound)
    | inr started ↦
        let r = started-IsLed e before c bound in
        rw (started) (rw (start_leader-follows (start_block e) r.2) r)
  ]

  extract_statement-IsCut :
      (names : ℕ → String) (q : Quadruple D) (e e' : Extraction D) (before : List (Quadruple D))
      → IsCut e.function e.next_is_leader before
      → suc e.function.index < minus_two
      → extract_statement names q e ≡ some e'
      → IsCut e'.function e'.next_is_leader (before ++ unlabelled (q ∷ []))
        × (e'.function.index ≤ suc e.function.index)
  unfolding extract_statement start_label start_block emplace
  extract_statement-IsCut names q e e' before c bound h =
      elim (Bool-cases (same q.op Operator.label)) [
        | inl label ↦
            let k : start_label q e ≡ e' = (let j = rw label at h in cc) in
            rw (label, ← k)
              (
                (rw (append-nil before)
                    (append_bb-IsCut e.function e.next_is_leader before c bound)),
                omega arith,
              )
        | inr other ↦
            let (m, first, second) = >>=-eq-some (start_call names q e) _ (rw other at h) in
            let (d, i, n) = start_call-IsLed names q e m before c bound first in
            let k : emplace q (start_leader m) ≡ e' = cc in
            rw (other, ← k) (rw n (emplaced-IsCut q (start_leader m).function before d), i)
      ]

  pub extract_loop-IsCut :
      (names : ℕ → String) (qs : List (Quadruple D)) (e e' : Extraction D)
      (before : List (Quadruple D))
      → IsCut e.function e.next_is_leader before
      → e.function.index + length qs < minus_two
      → extract_loop names qs e ≡ some e'
      → IsCut e'.function e'.next_is_leader (before ++ unlabelled qs)
        × (e'.function.index < minus_two)
  unfolding extract_loop
  extract_loop-IsCut names [] e e' before c bound h =
      let k : e ≡ e' = cc in rw (← k) (rw (append-nil before) c, omega arith)
  extract_loop-IsCut names (q ∷ rest) e e' before c bound h =
      let (m, first, later) =
        >>=-eq-some (extract_statement names q e) (extract_loop names rest) h in
      let (d, i) = extract_statement-IsCut names q e m before c (omega arith) first in
      let (r, b) =
        extract_loop-IsCut names rest m e' (before ++ unlabelled (q ∷ [])) d (omega arith) later in
      (
        subst (λ l. IsCut e'.function e'.next_is_leader l)
            (append_assoc before (unlabelled (q ∷ [])) (unlabelled rest)
              ∙ ap (λ l. before ++ l) (unlabelled-cons q rest))
            r,
        b,
      )
