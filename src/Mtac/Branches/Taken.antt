-- ===== src/Mtac/Branches/Taken.antt =====
-- src/mtac/BranchOptimizations.cpp: a branch on a literal jumps as the pass has decided.
use mathlib.Core.Bool.{not}
use eddic.Prelude.{
  ℕ, ◌≡◌, refl, sym, ap, ◌∙◌, arith, Bool, true, false, ◌||◌, Option, none, some, ◌==◌,
  if◌then◌else◌, ◌>>=◌, >>=-eq-some,
}
use eddic.Mtac.Operator
use eddic.Mtac.Operator.{Operator, same}
use eddic.Mtac.Quadruple.{Doubles, Argument, int}
use eddic.Mtac.Meaning.{Value, integer, real, effect, address, read, commit, unary_op, binary_op}
use eddic.Mtac.Branches.{Decision, unknown, taken, not_taken, decide}
use eddic.Mtac.Branches.Flow.{Flow, falls, jumps, flow_of}

module _ {D : Type 0} (d : Doubles D) where
  -- A branch on a literal that has a meaning jumps as the literal says.
  binary-unary :
      (v w : Value D)
      → (binary_op d Operator.if_unary v w ≡ none)
        × (binary_op d Operator.if_false_unary v w ≡ none)
  unfolding binary_op
  binary-unary (integer a) (integer b) = (refl, refl)
  binary-unary (integer a) (real y) = (refl, refl)
  binary-unary (integer a) (address t) = (refl, refl)
  binary-unary (real x) (integer b) = (refl, refl)
  binary-unary (real x) (real y) = (refl, refl)
  binary-unary (real x) (address t) = (refl, refl)
  binary-unary (address s) _ = (refl, refl)

  module _ (env : ℕ → Value D) (n : ℕ) where
    abbrev commits : Operator → Option (Argument D) → Option ℕ → Option ((ℕ → Value D) × Bool)
    commits op b result = effect d env op (some (int n)) b >>= commit d env result

    commits-if :
        (b : Option (Argument D)) (result : Option ℕ) (s : (ℕ → Value D) × Bool)
        → commits Operator.if_unary b result ≡ some s
        → s ≡ (env, not (n == 0))
    unfolding effect unary_op
    commits-if none none s h = cc
    commits-if none (some r) s h = cc
    commits-if (some b) result s h = let k = rw (binary-unary (integer n) (read env b)).0 at h in cc

    commits-if_false :
        (b : Option (Argument D)) (result : Option ℕ) (s : (ℕ → Value D) × Bool)
        → commits Operator.if_false_unary b result ≡ some s
        → s ≡ (env, n == 0)
    unfolding effect unary_op
    commits-if_false none none s h = cc
    commits-if_false none (some r) s h = cc
    commits-if_false (some b) result s h =
        let k = rw (binary-unary (integer n) (read env b)).1 at h in cc

  -- what decide_branch says of an operator and an argument, and what exec_one does with them
  abbrev pub branch_of : Operator → Option (Argument D) → Option Decision
  branch_of op a =
      if same op Operator.if_false_unary
      then decide taken not_taken a
      else if same op Operator.if_unary
      then decide not_taken taken a
      else some unknown

  flow_if :
      (env : ℕ → Value D) (n : ℕ) (b : Option (Argument D)) (result target : Option ℕ)
      (r : (ℕ → Value D) × Flow)
      → (commits env n Operator.if_unary b result >>= λ s. some (s.0, flow_of target s.1)) ≡ some r
      → r ≡ (env, flow_of target (not (n == 0)))
  flow_if env n b result target r h =
      let (s, e, k) =
        >>=-eq-some (commits env n Operator.if_unary b result) (λ s. some (s.0, flow_of target s.1))
          h in
      let j = commits-if env n b result s e in
      let m : (s.0, flow_of target s.1) ≡ r = cc in
      sym m ∙ ap (λ (t : (ℕ → Value D) × Bool). (t.0, flow_of target t.1)) j

  flow_if_false :
      (env : ℕ → Value D) (n : ℕ) (b : Option (Argument D)) (result target : Option ℕ)
      (r : (ℕ → Value D) × Flow)
      → (commits env n Operator.if_false_unary b result >>= λ s. some (s.0, flow_of target s.1))
        ≡ some r
      → r ≡ (env, flow_of target (n == 0))
  flow_if_false env n b result target r h =
      let (s, e, k) =
        >>=-eq-some (commits env n Operator.if_false_unary b result)
          (λ s. some (s.0, flow_of target s.1)) h in
      let j = commits-if_false env n b result s e in
      let m : (s.0, flow_of target s.1) ≡ r = cc in
      sym m ∙ ap (λ (t : (ℕ → Value D) × Bool). (t.0, flow_of target t.1)) j

  abbrev pub flow :
      (ℕ → Value D)
      → Operator
      → Option (Argument D)
      → Option (Argument D)
      → Option ℕ
      → Option ℕ
      → Option ((ℕ → Value D) × Flow)
      → Option ((ℕ → Value D) × Flow)
  flow env op a b result target others =
      if same op Operator.goto
      then some (env, jumps target)
      else if (same op Operator.if_false_unary || same op Operator.if_unary) || same op Operator.nop
      then ((effect d env op a b >>= commit d env result) >>= λ r. some (r.0, flow_of target r.1))
      else others

  module _ (env : ℕ → Value D) (b : Option (Argument D)) (result target : Option ℕ)
      (others : Option ((ℕ → Value D) × Flow)) (r : (ℕ → Value D) × Flow) where
    pub flow-taken :
        (op : Operator) (a : Option (Argument D))
        → branch_of op a ≡ some taken
        → flow env op a b result target others ≡ some r
        → r ≡ (env, jumps target)
    unfolding decide Operator.position
    flow-taken Operator.if_false_unary (some (int n)) h k =
        let e : (n == 0) ≡ true = ground (arith, h) in
        flow_if_false env n b result target r k ∙ ap (λ t. (env, flow_of target t)) e
    flow-taken Operator.if_unary (some (int n)) h k =
        let e : (n == 0) ≡ false = ground (arith, h) in
        flow_if env n b result target r k ∙ ap (λ t. (env, flow_of target (not t))) e
    flow-taken _ _ h k = cc

    pub flow-not_taken :
        (op : Operator) (a : Option (Argument D))
        → branch_of op a ≡ some not_taken
        → flow env op a b result target others ≡ some r
        → r ≡ (env, falls)
    unfolding decide Operator.position
    flow-not_taken Operator.if_false_unary (some (int n)) h k =
        let e : (n == 0) ≡ false = ground (arith, h) in
        flow_if_false env n b result target r k ∙ ap (λ t. (env, flow_of target t)) e
    flow-not_taken Operator.if_unary (some (int n)) h k =
        let e : (n == 0) ≡ true = ground (arith, h) in
        flow_if env n b result target r k ∙ ap (λ t. (env, flow_of target (not t))) e
    flow-not_taken _ _ h k = cc
