-- ===== src/Kernel/Evaluate/Order.antt =====
-- Evaluation does not short-circuit: every condition is evaluated, once, in the normative order.
use connect_governance.Prelude.{
  String, ◌≡◌, Bool, true, false, Option, none, some, List, [], ◌∷◌, ◌++◌, append_assoc, append-nil,
  Bool-cases, inl, inr, is_nil, ok, Merge, elem, if◌then◌else◌, Merge-append_left,
  Merge-append_right,
}
use connect_governance.Kernel.Types.{
  ReasonCode, DelegationContext, Constraint, require_classification, forbid_classification,
  budget_ceiling, require_approval, DecisionRequest, Decision,
}
use connect_governance.Kernel.Evidence.{Host, Evidence, no_evidence, satisfy, fail}
use connect_governance.Kernel.Authority.{Assessment, conclude_authority}
use connect_governance.Kernel.Evaluate.{
  revision_differs, too_deep, structural, principal, delegation_checks, delegation, constrain,
  constrain_all, approval, conclude, evaluate,
}
use connect_governance.Kernel.Evaluate.Gates.{gathered, evaluate-eq-ok}

abbrev pub delegation_conditions : Option DelegationContext → List String
delegation_conditions none = []
delegation_conditions (some d) = "delegation.within_depth" ∷ "delegation.subset_of_grant" ∷ []

-- The ids of the constraints that are gates: all but the approvals.
abbrev pub gate_ids : {F : Type 0} → List (Constraint F) → List String
gate_ids [] = []
gate_ids (require_classification i p k v ∷ cs) = i ∷ gate_ids cs
gate_ids (forbid_classification i p k v ∷ cs) = i ∷ gate_ids cs
gate_ids (budget_ceiling i p k l ∷ cs) = i ∷ gate_ids cs
gate_ids (require_approval i p a ∷ cs) = gate_ids cs

-- The conditions of a request, stage by stage.
abbrev pub conditions : {F : Type 0} → DecisionRequest F → List String
conditions request =
    "structural.expected_revision_matches"
    ∷ "principal.active"
    ∷ "authority.explicit_and_effective"
    ∷ (delegation_conditions request.delegation ++ gate_ids request.constraints)

-- The evidence so far splits the conditions `zs` into satisfied and failed ones.
pub record Splits (ev : Evidence) (zs : List String) : Type 0 where
  pub merge : Merge ev.satisfied ev.failed zs

-- The choice between `fail` and `satisfy` extends the split by the condition, either way.
Splits-if :
    {ev : Evidence} {zs : List String} (b : Bool) (r : ReasonCode) (c : String)
    → Splits ev zs
    → Splits (if b then fail r c ev else satisfy c ev) (zs ++ c ∷ [])
Splits-if true r c m = record { merge = Merge-append_right c m.merge }
Splits-if false r c m = record { merge = Merge-append_left c m.merge }

Splits-unless :
    {ev : Evidence} {zs : List String} (b : Bool) (r : ReasonCode) (c : String)
    → Splits ev zs
    → Splits (if b then satisfy c ev else fail r c ev) (zs ++ c ∷ [])
Splits-unless true r c m = record { merge = Merge-append_left c m.merge }
Splits-unless false r c m = record { merge = Merge-append_right c m.merge }

pub Splits-conclude_authority :
    {ev : Evidence} {zs : List String} (b : Bool) (found : Assessment)
    → Splits ev zs
    → Splits (conclude_authority b found ev) (zs ++ "authority.explicit_and_effective" ∷ [])
unfolding conclude_authority
Splits-conclude_authority b ([], codes) m = record { merge = Merge-append_right _ m.merge }
Splits-conclude_authority b (e ∷ es, codes) m = record { merge = Merge-append_left _ m.merge }

pub Splits-delegation_checks :
    {ev : Evidence} {zs : List String} (required : String) (o : Option DelegationContext)
    → Splits ev zs
    → Splits (delegation_checks required o ev) (zs ++ delegation_conditions o)
unfolding delegation_checks
Splits-delegation_checks {zs = zs} required none m = rw (append-nil zs) m
Splits-delegation_checks {zs = zs} required (some d) m =
    rw (← append_assoc zs ("delegation.within_depth" ∷ []) ("delegation.subset_of_grant" ∷ [])) (
      Splits-unless (elem required d.granting_authorities) _ _
        (Splits-if (too_deep d.depth d.max_depth) _ _ m))

pub approval_keeps : {ev : Evidence} {zs : List String} → Splits ev zs → Splits (approval ev) zs
unfolding approval
approval_keeps {ev} m = elim (Bool-cases (is_nil ev.approvals)) [
  | inl e ↦ rw e m
  | inr e ↦ rw e (record { merge = m.merge })
]

module _ {F : Type 0} (host : Host F) (request : DecisionRequest F) where
  Splits-constrain_all :
      (cs : List (Constraint F)) {ev : Evidence} {zs : List String}
      → Splits ev zs
      → Splits (constrain_all host request cs ev) (zs ++ gate_ids cs)
  unfolding constrain_all constrain
  Splits-constrain_all [] {zs = zs} m = rw (append-nil zs) m
  Splits-constrain_all (require_classification i p k v ∷ cs) {zs = zs} m =
      rw (← append_assoc zs (i ∷ []) (gate_ids cs))
        (Splits-constrain_all cs (Splits-unless _ _ i m))
  Splits-constrain_all (forbid_classification i p k v ∷ cs) {zs = zs} m =
      rw (← append_assoc zs (i ∷ []) (gate_ids cs)) (Splits-constrain_all cs (Splits-if _ _ i m))
  Splits-constrain_all (budget_ceiling i p k l ∷ cs) {zs = zs} m =
      rw (← append_assoc zs (i ∷ []) (gate_ids cs)) (Splits-constrain_all cs (Splits-if _ _ i m))
  Splits-constrain_all (require_approval i p a ∷ cs) {ev} {zs} m =
      let kept : Splits (record ev { approvals = ev.approvals ++ a ∷ [] }) zs = record {
        merge = m.merge;
      } in
      Splits-constrain_all cs kept

  pub Splits-structural :
      Splits (structural request no_evidence) ("structural.expected_revision_matches" ∷ [])
  unfolding structural
  Splits-structural =
      let start : Splits no_evidence [] = record { merge = Merge.done } in
      Splits-if
        (revision_differs request.transition.expected_state_revision request.current_state_revision)
        ReasonCode.expected_revision_stale _ start

  pub Splits-principal :
      {ev : Evidence} {zs : List String}
      → Splits ev zs
      → Splits (principal request ev) (zs ++ "principal.active" ∷ [])
  unfolding principal
  Splits-principal m = Splits-unless request.principal_active _ _ m

  Splits-gathered : (found : Assessment) → Splits (gathered host request found) (conditions request)
  unfolding delegation
  Splits-gathered found = Splits-constrain_all request.constraints (
      Splits-delegation_checks request.required_authority request.delegation
        (Splits-conclude_authority _ found (Splits-principal Splits-structural)))

  -- Whatever is decided, the satisfied and the failed conditions together are exactly the
  -- conditions of the request, each evaluated once, and both sequences keep the stage order.
  pub conditions-evaluate :
      {d : Decision}
      → evaluate host request ≡ ok d
      → Merge d.satisfied_conditions d.failed_conditions (conditions request)
  unfolding conclude
  conditions-evaluate h =
      let (found, e, e') = evaluate-eq-ok host request h in
      rw e' (approval_keeps (Splits-gathered found)).merge
