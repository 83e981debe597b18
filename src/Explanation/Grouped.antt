-- ===== src/Explanation/Grouped.antt =====
-- The stages of the proof view hold every condition of the Decision once, in its order.
use connect_governance.Prelude.{
  String, ◌≡◌, refl, ap, true, false, List, [], ◌∷◌, ◌++◌, map, arith, All, Option, none, some,
  elem, ◌==◌, eq_refl, eq_comm, Merge, ok,
}
use connect_governance.Kernel.Types.{
  DelegationContext, Constraint, require_classification, forbid_classification, budget_ceiling,
  require_approval, DecisionRequest, Decision,
}
use connect_governance.Kernel.Evidence.{Host}
use connect_governance.Kernel.Evaluate.{evaluate}
use connect_governance.Kernel.Evaluate.Order.{
  delegation_conditions, gate_ids, conditions, conditions-evaluate,
}
use connect_governance.Explanation.Stages.{stage_order, stage_for_condition, constraint_id}
use connect_governance.Explanation.Proof.{of_stage, constraint_ids, proof_view}

-- The conditions that are no constraint's.
abbrev pub fixed_conditions : List String
fixed_conditions =
    "structural.expected_revision_matches" ∷ "principal.active" ∷ "authority.explicit_and_effective"
    ∷ "delegation.within_depth" ∷ "delegation.subset_of_grant" ∷ []

-- One list after another.
abbrev pub concat : List (List String) → List String
concat [] = []
concat (xs ∷ xss) = xs ++ concat xss

abbrev pub IsDistinct : List String → Type 0
IsDistinct [] = Unit
IsDistinct (k ∷ ks) = (elem k ks ≡ false) × IsDistinct ks

module _ (ids : List String) where
  -- Conditions that stand in the order of the stages `ks`, each of one of them.
  data Staged : List String → List String → Type 0 where
    done : Staged [] []
    take :
        {k c : String} {ks cs : List String}
        → stage_for_condition c ids ≡ k
        → Staged (k ∷ ks) cs
        → Staged (k ∷ ks) (c ∷ cs)
    skip : {k : String} {ks cs : List String} → Staged ks cs → Staged (k ∷ ks) cs

  Staged-left : {ks xs ys zs : List String} → Merge xs ys zs → Staged ks zs → Staged ks xs
  Staged-left m (skip s) = skip (Staged-left m s)
  Staged-left (Merge.left m) (take e s) = take e (Staged-left m s)
  Staged-left (Merge.right m) (take e s) = Staged-left m s
  Staged-left Merge.done done = done

  Staged-right : {ks xs ys zs : List String} → Merge xs ys zs → Staged ks zs → Staged ks ys
  Staged-right m (skip s) = skip (Staged-right m s)
  Staged-right (Merge.left m) (take e s) = Staged-right m s
  Staged-right (Merge.right m) (take e s) = take e (Staged-right m s)
  Staged-right Merge.done done = done

  -- No condition is of a stage that is not among the stages.
  other_stage :
      {ks cs : List String} (k : String) → elem k ks ≡ false → Staged ks cs → of_stage ids k cs ≡ []
  other_stage k h done = refl
  other_stage k h (take {k = j} e s) =
      let differs : (j == k) ≡ false = ground (arith, eq_comm j k) in
      rw (e, differs) (other_stage k h s)
  other_stage k h (skip s) = other_stage k (ground arith) s

  abbrev parts : List String → List String → List (List String)
  parts ks cs = map (λ k. of_stage ids k cs) ks

  -- A condition of a stage not among `ks` changes no part.
  parts_skip :
      (k c : String) (ks cs : List String)
      → stage_for_condition c ids ≡ k
      → elem k ks ≡ false
      → parts ks (c ∷ cs) ≡ parts ks cs
  parts_skip k c [] cs e h = refl
  parts_skip k c (j ∷ ks) cs e h =
      let differs : (k == j) ≡ false = ground arith in
      rw (e, differs) (ap (λ l. of_stage ids j cs ∷ l) (parts_skip k c ks cs e (ground arith)))

  -- The parts of the stages, put together, are the conditions.
  concat-parts : {ks cs : List String} → IsDistinct ks → Staged ks cs → concat (parts ks cs) ≡ cs
  concat-parts d done = refl
  concat-parts d (take {k = k} {c = c} {ks = ks} {cs = cs} e s) =
      rw (e, eq_refl k, parts_skip k c ks cs e d.0) (ap (λ l. c ∷ l) (concat-parts d s))
  concat-parts d (skip {k = k} s) = rw (other_stage k d.0 s) (concat-parts d.1 s)

  Staged-skip_all : (ks : List String) → Staged ks []
  Staged-skip_all [] = done
  Staged-skip_all (k ∷ ks) = skip (Staged-skip_all ks)

  Staged-gate_ids :
      {F : Type 0} (cs : List (Constraint F))
      → ((i : String) → elem i (map constraint_id cs) ≡ true → elem i ids ≡ true)
      → Staged ("constraints" ∷ "approval" ∷ []) (gate_ids cs)
  Staged-gate_ids [] h = Staged-skip_all _
  Staged-gate_ids (require_classification i p k v ∷ cs) h =
      take (rw (h i (ground (arith, eq_refl i))) refl)
        (Staged-gate_ids cs (λ j e. h j (ground arith)))
  Staged-gate_ids (forbid_classification i p k v ∷ cs) h =
      take (rw (h i (ground (arith, eq_refl i))) refl)
        (Staged-gate_ids cs (λ j e. h j (ground arith)))
  Staged-gate_ids (budget_ceiling i p k l ∷ cs) h =
      take (rw (h i (ground (arith, eq_refl i))) refl)
        (Staged-gate_ids cs (λ j e. h j (ground arith)))
  Staged-gate_ids (require_approval i p a ∷ cs) h = Staged-gate_ids cs (λ j e. h j (ground arith))

module _ {F : Type 0} (request : DecisionRequest F)
    (unreserved : All (λ c. elem c (constraint_ids request) ≡ false) fixed_conditions) where
  abbrev ids : List String
  ids = constraint_ids request

  Staged-delegation :
      (o : Option DelegationContext) {cs : List String}
      → Staged ids ("constraints" ∷ "approval" ∷ []) cs
      → Staged ids ("delegation" ∷ "constraints" ∷ "approval" ∷ []) (delegation_conditions o ++ cs)
  Staged-delegation none s = skip s
  Staged-delegation (some d) s =
      take (rw (unreserved.1.1.1.0) refl) (take (rw (unreserved.1.1.1.1.0) refl) (skip s))

  Staged-conditions : Staged ids stage_order (conditions request)
  Staged-conditions = take (rw (unreserved.0) refl) (
      skip (
        take (rw (unreserved.1.0) refl) (
          skip (
            take (rw (unreserved.1.1.0) refl) (
              skip (
                Staged-delegation request.delegation
                  (Staged-gate_ids ids request.constraints (λ i e. e))))))))

module _ {F : Type 0} (host : Host F) (request : DecisionRequest F) where
  -- If no constraint's id is one of the five fixed conditions, the stages of the proof view of a
  -- Decision that `evaluate` made stand in the stage order, and their satisfied conditions, one
  -- stage after another, are exactly those of the Decision in its order; so are the failed ones.
  pub stages-proof_view :
      {d : Decision}
      → evaluate host request ≡ ok d
      → All (λ c. elem c (constraint_ids request) ≡ false) fixed_conditions
      → (map (λ v. v.stage) (proof_view host request d).stages ≡ stage_order)
        × (concat (map (λ v. v.satisfied) (proof_view host request d).stages)
            ≡ d.satisfied_conditions)
        × (concat (map (λ v. v.failed) (proof_view host request d).stages) ≡ d.failed_conditions)
  unfolding proof_view
  stages-proof_view {d} h unreserved =
      let merged = conditions-evaluate host request h in
      let staged = Staged-conditions request unreserved in
      let distinct : IsDistinct stage_order = (refl, (refl, (refl, (refl, (refl, (refl, tt)))))) in
      (
        refl,
        concat-parts (constraint_ids request) distinct
            (Staged-left (constraint_ids request) merged staged),
        concat-parts (constraint_ids request) distinct
            (Staged-right (constraint_ids request) merged staged),
      )
