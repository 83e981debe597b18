-- ===== src/Explanation/Proof.antt =====
-- `proof_view` of src/connect_governance/explanation.py: the evidence, grouped by stage.
use connect_governance.Prelude.{
  String, not, ◌&&◌, ◌||◌, List, map, filter, is_nil, elem, dict_get, ◌==◌, if◌then◌else◌,
}
use connect_governance.Kernel.Types.{
  outcome_value, reason_value, AuthorityEvidence, Constraint, require_classification,
  forbid_classification, budget_ceiling, require_approval, DecisionRequest, Decision,
}
use connect_governance.Kernel.Evidence.{Host}
use connect_governance.Kernel.Evaluate.{spent}
use connect_governance.Explanation.Views.{
  StageView, AuthorityView, Detail, ConstraintView, ProofView,
}
use connect_governance.Explanation.Stages.{stage_order, stage_for_condition, constraint_id}

abbrev pub conformance_spec_version : String
conformance_spec_version = "1"

-- [c for c in conditions if _stage_for_condition(c, constraint_ids) == stage]
abbrev pub of_stage : List String → String → List String → List String
of_stage constraint_ids stage conditions =
    filter (λ c. stage_for_condition c constraint_ids == stage) conditions

-- The body of the loop over STAGE_ORDER.
abbrev pub stage_view : List String → Decision → String → StageView
stage_view constraint_ids decision stage =
    let satisfied = of_stage constraint_ids stage decision.satisfied_conditions in
    let failed = of_stage constraint_ids stage decision.failed_conditions in
    record {
      stage = stage;
      evaluated =
          if stage == "approval"
          then not (is_nil decision.required_approvals)
          else not (is_nil satisfied) || not (is_nil failed);
      satisfied = satisfied;
      failed = failed;
    }

abbrev pub constraint_kind : {F : Type 0} → Constraint F → String
constraint_kind (require_classification i p k v) = "require_classification"
constraint_kind (forbid_classification i p k v) = "forbid_classification"
constraint_kind (budget_ceiling i p k l) = "budget_ceiling"
constraint_kind (require_approval i p a) = "require_approval"

abbrev pub policy_version_of : {F : Type 0} → Constraint F → String
policy_version_of (require_classification i p k v) = p
policy_version_of (forbid_classification i p k v) = p
policy_version_of (budget_ceiling i p k l) = p
policy_version_of (require_approval i p a) = p

abbrev pub result_of : String → (satisfied failed : List String) → String
result_of i satisfied failed =
    if elem i satisfied then "satisfied" else if elem i failed then "failed" else "not_a_gate"

module _ {F : Type 0} where
  abbrev pub constraint_ids : DecisionRequest F → List String
  constraint_ids request = map constraint_id request.constraints

  -- The body of the loop over the authority evidence.
  abbrev pub authority_view : DecisionRequest F → Decision → AuthorityEvidence → AuthorityView
  authority_view request decision ev =
      let matched_principal = ev.principal_id == request.transition.proposed_by_principal_id in
      let grants_required = elem request.required_authority ev.granted_authorities in
      record {
        relationship_id = ev.relationship_id;
        relationship_type = ev.relationship_type;
        principal_id = ev.principal_id;
        target_id = ev.target_id;
        granted_authorities = ev.granted_authorities;
        matches_principal = matched_principal;
        grants_required_authority = grants_required;
        was_a_candidate = matched_principal && grants_required;
        relied_upon = elem ev.relationship_id decision.resolved_authorities;
        effective_from = ev.effective_from;
        effective_until = ev.effective_until;
        revoked_at = ev.revoked_at;
      }

module _ {F : Type 0} (host : Host F) where
  abbrev pub constraint_detail : DecisionRequest F → Constraint F → Detail F
  constraint_detail request (budget_ceiling i p key limit) =
      Detail.budget key limit (spent host request key)
  constraint_detail request (require_classification i p key value) =
      Detail.classification key value (dict_get key request.classifications)
  constraint_detail request (forbid_classification i p key value) =
      Detail.classification key value (dict_get key request.classifications)
  constraint_detail request (require_approval i p approval_id) = Detail.approval approval_id

  -- The body of the loop over the constraints.
  abbrev pub constraint_view : DecisionRequest F → Decision → Constraint F → ConstraintView F
  constraint_view request decision c = record {
    constraint_id = constraint_id c;
    kind = constraint_kind c;
    policy_version = policy_version_of c;
    detail = constraint_detail request c;
    result = result_of (constraint_id c) decision.satisfied_conditions decision.failed_conditions;
  }

  unfoldable pub proof_view : DecisionRequest F → Decision → ProofView F
  proof_view request decision = record {
    outcome = outcome_value decision.outcome;
    reason_codes = map reason_value decision.reason_codes;
    stages = map (stage_view (constraint_ids request) decision) stage_order;
    authorities_evaluated = map (authority_view request decision) request.authority_evidence;
    constraints_evaluated = map (constraint_view request decision) request.constraints;
    approval_findings = record {
      required = decision.required_approvals;
      triggered = not (is_nil decision.required_approvals);
      note = "Approval satisfies a policy condition; it never overrides authority (ADR-026).";
    };
    revisions = record {
      transition_id = decision.transition_id;
      expected_state_revision = request.transition.expected_state_revision;
      current_state_revision = request.current_state_revision;
      policy_versions = decision.policy_versions;
    };
    versions = record {
      kernel_version = decision.kernel_version;
      conformance_spec_version = conformance_spec_version;
    };
    evaluated_at = decision.evaluated_at;
    correlation_id = decision.correlation_id;
  }
