-- ===== src/Explanation/Results.antt =====
-- The results that the proof view gives for the constraints, against what the constraints ask.
use connect_governance.Prelude.{
  String, ◌≡◌, refl, sym, ap, ◌∙◌, Bool, false, not, ◌&&◌, List, [], ◌∷◌, ◌++◌, append-nil,
  append_assoc, map, arith, All, Any, Option, none, some, elem, is_nil, ok, if◌then◌else◌,
  Bool-cases, inl, inr,
}
use connect_governance.Kernel.Types.{
  Constraint, require_classification, forbid_classification, budget_ceiling, require_approval,
  DecisionRequest, Decision, DelegationContext,
}
use connect_governance.Kernel.Evidence.{Host, Evidence, no_evidence}
use connect_governance.Kernel.Authority.{Assessment, conclude_authority, candidates}
use connect_governance.Kernel.Evaluate.{
  structural, principal, delegation, constrain, constrain_all, approval, conclude, evaluate,
}
use connect_governance.Kernel.Evaluate.Gates.{meets, asks_approval, gathered, evaluate-eq-ok}
use connect_governance.Kernel.Evaluate.Order.{
  delegation_conditions, Splits, Splits-structural, Splits-principal, Splits-conclude_authority,
  Splits-delegation_checks,
}
use connect_governance.Explanation.Stages.{constraint_id}
use connect_governance.Explanation.Proof.{constraint_ids, constraint_view, result_of, proof_view}
use connect_governance.Explanation.Ids.{
  elem-append, elem-Merge, elem-constraint_id, ids_of, ids_of-append, ids_of_distinct, elem-All,
  map_agree,
}
use connect_governance.Explanation.Grouped.{fixed_conditions, IsDistinct}

elem-delegation_conditions :
    (x : String) (o : Option DelegationContext)
    → elem x fixed_conditions ≡ false
    → elem x (delegation_conditions o) ≡ false
elem-delegation_conditions x none h = refl
elem-delegation_conditions x (some d) h = ground arith

satisfied-approval :
    (ev : Evidence) → ((approval ev).satisfied ≡ ev.satisfied) × ((approval ev).failed ≡ ev.failed)
unfolding approval
satisfied-approval ev = elim (Bool-cases (is_nil ev.approvals)) [
  | inl e ↦ rw e (refl, refl)
  | inr e ↦ rw e (refl, refl)
]

module _ {F : Type 0} (host : Host F) (request : DecisionRequest F) where
  abbrev is_met : Constraint F → Bool
  is_met c = not (asks_approval c) && meets host request c

  abbrev is_failed : Constraint F → Bool
  is_failed c = not (asks_approval c) && not (meets host request c)

  satisfied-constrain :
      (c : Constraint F) (ev : Evidence)
      → (constrain host request c ev).satisfied ≡ ev.satisfied ++ ids_of is_met (c ∷ [])
  unfolding constrain
  satisfied-constrain (require_classification i p k v) ev = ground (arith, append-nil ev.satisfied)
  satisfied-constrain (forbid_classification i p k v) ev = ground (arith, append-nil ev.satisfied)
  satisfied-constrain (budget_ceiling i p k l) ev = ground (arith, append-nil ev.satisfied)
  satisfied-constrain (require_approval i p a) ev = sym (append-nil ev.satisfied)

  failed-constrain :
      (c : Constraint F) (ev : Evidence)
      → (constrain host request c ev).failed ≡ ev.failed ++ ids_of is_failed (c ∷ [])
  unfolding constrain
  failed-constrain (require_classification i p k v) ev = ground (arith, append-nil ev.failed)
  failed-constrain (forbid_classification i p k v) ev = ground (arith, append-nil ev.failed)
  failed-constrain (budget_ceiling i p k l) ev = ground (arith, append-nil ev.failed)
  failed-constrain (require_approval i p a) ev = sym (append-nil ev.failed)

  satisfied-constrain_all :
      (cs : List (Constraint F)) (ev : Evidence)
      → (constrain_all host request cs ev).satisfied ≡ ev.satisfied ++ ids_of is_met cs
  unfolding constrain_all
  satisfied-constrain_all [] ev = sym (append-nil ev.satisfied)
  satisfied-constrain_all (c ∷ cs) ev =
      satisfied-constrain_all cs (constrain host request c ev)
      ∙ ap (λ x. x ++ ids_of is_met cs) (satisfied-constrain c ev)
      ∙ append_assoc ev.satisfied (ids_of is_met (c ∷ [])) (ids_of is_met cs)
      ∙ ap (λ x. ev.satisfied ++ x) (ids_of-append is_met c cs)

  failed-constrain_all :
      (cs : List (Constraint F)) (ev : Evidence)
      → (constrain_all host request cs ev).failed ≡ ev.failed ++ ids_of is_failed cs
  unfolding constrain_all
  failed-constrain_all [] ev = sym (append-nil ev.failed)
  failed-constrain_all (c ∷ cs) ev =
      failed-constrain_all cs (constrain host request c ev)
      ∙ ap (λ x. x ++ ids_of is_failed cs) (failed-constrain c ev)
      ∙ append_assoc ev.failed (ids_of is_failed (c ∷ [])) (ids_of is_failed cs)
      ∙ ap (λ x. ev.failed ++ x) (ids_of-append is_failed c cs)

  -- The conditions that are evaluated before the constraints.
  abbrev earlier : List String
  earlier =
      "structural.expected_revision_matches"
      ∷ "principal.active"
      ∷ "authority.explicit_and_effective"
      ∷ delegation_conditions request.delegation

  abbrev before : Assessment → Evidence
  before found = delegation request (
      conclude_authority (not (is_nil (candidates request))) found
        (principal request (structural request no_evidence)))

  Splits-before : (found : Assessment) → Splits (before found) earlier
  unfolding delegation
  Splits-before found = Splits-delegation_checks request.required_authority request.delegation (
      Splits-conclude_authority _ found
        (Splits-principal host request (Splits-structural host request)))

  elem-earlier : (x : String) → elem x fixed_conditions ≡ false → elem x earlier ≡ false
  elem-earlier x h = ground (arith, elem-delegation_conditions x request.delegation)

  -- What the proof view is to say of a constraint.
  abbrev pub due_result : Constraint F → String
  due_result c =
      if asks_approval c
      then "not_a_gate"
      else if meets host request c
      then "satisfied"
      else "failed"

  views_agree :
      (d : Decision) (cs : List (Constraint F))
      → map (λ v. v.result) (map (constraint_view host request d) cs)
        ≡ map (λ c. result_of (constraint_id c) d.satisfied_conditions d.failed_conditions) cs
  views_agree d [] = refl
  views_agree d (c ∷ cs) =
      ap (λ x. (constraint_view host request d c).result ∷ x) (views_agree d cs)

  result_of-due :
      (c : Constraint F) (found : Assessment)
      → IsDistinct (constraint_ids request)
      → elem (constraint_id c) fixed_conditions ≡ false
      → Any (λ b. b ≡ c) request.constraints
      → result_of
          (constraint_id c)
          (gathered host request found).satisfied
          (gathered host request found).failed
        ≡ due_result c
  result_of-due c found distinct free a =
      let x = constraint_id c in
      let cs = request.constraints in
      let (not_met, not_failed) = elem-Merge x (Splits-before found).merge (elem-earlier x free) in
      let met : elem x (gathered host request found).satisfied ≡ is_met c =
        ap (elem x) (satisfied-constrain_all cs (before found))
        ∙ elem-append x (before found).satisfied (ids_of is_met cs)
        ∙ rw not_met (ids_of_distinct is_met c cs distinct a) in
      let failed : elem x (gathered host request found).failed ≡ is_failed c =
        ap (elem x) (failed-constrain_all cs (before found))
        ∙ elem-append x (before found).failed (ids_of is_failed cs)
        ∙ rw not_failed (ids_of_distinct is_failed c cs distinct a) in
      rw (met, failed) (ground arith)

  -- For a Decision that `evaluate` returned, the proof view gives each constraint, in the order of the
  -- request, the result that it is due: "not_a_gate" for an approval, and for any other "satisfied" or
  -- "failed" as the classifications and the cumulative state meet it or do not. The ids of the
  -- constraints are distinct, and none of them is one of the fixed conditions.
  pub results-proof_view :
      {d : Decision}
      → evaluate host request ≡ ok d
      → IsDistinct (constraint_ids request)
      → All (λ k. elem k (constraint_ids request) ≡ false) fixed_conditions
      → map (λ v. v.result) (proof_view host request d).constraints_evaluated
        ≡ map due_result request.constraints
  unfolding proof_view conclude
  results-proof_view {d} h distinct unreserved =
      let (found, e, made) = evaluate-eq-ok host request h in
      let (satisfied, failed) = satisfied-approval (gathered host request found) in
      views_agree d request.constraints
      ∙ map_agree _ due_result request.constraints (λ c a.
        rw (made, satisfied, failed)
          (result_of-due c found distinct
            (elem-All (constraint_id c) (constraint_ids request) fixed_conditions
              (elem-constraint_id c request.constraints a) unreserved)
            a))
