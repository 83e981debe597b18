-- ===== src/Samples/Requests.antt =====
-- A deployment, its founder, and the requests that the founder proposes.
use connect_governance.Prelude.{ℕ, true, none, some, [], ◌∷◌}
use connect_governance.Kernel.Json.{Json, Fields}
use connect_governance.Kernel.Types.{
  Outcome, ReasonCode, Transition, AuthorityEvidence, require_classification, forbid_classification,
  budget_ceiling, require_approval, DecisionRequest, Decision,
}
use connect_governance.Kernel.Evaluate.{kernel_version}
use connect_governance.Genesis.{GenesisRequest}
use connect_governance.Genesis.Founding.{founding_evidence}

abbrev pub sample_genesis : GenesisRequest
sample_genesis = record {
  deployment_root_fingerprint = "sha256:root";
  installer = "operator";
  software_version = "0.0.1";
  initial_policy_hash = "sha256:policy";
  initial_config_hash = "sha256:config";
  organization_id = "org-1";
  organization_name = "Acme";
  workspace_id = "ws-1";
  workspace_name = "Main";
  founding_person_id = "alice";
  founding_person_name = "Alice";
  initial_agent_id = "agent-1";
  initial_agent_name = "Assistant";
  authority_id = "auth-1";
  recorded_at = "100Z";
}

abbrev pub sample_transition : Transition ℕ
sample_transition = record {
  transition_id = "t-1";
  transition_type = "CreateWorkRequest";
  proposed_by_principal_id = "alice";
  target_type = "WorkRequest";
  target_id = some "wr-1";
  operation = "create";
  claims = Fields.field "work_request_id" (Json.str "wr-1") Fields.end;
  expected_state_revision = none;
}

-- A relationship that has expired beside the founding grant, and a constraint of each class.
abbrev pub expired_evidence : AuthorityEvidence
expired_evidence = record {
  relationship_id = "auth-0";
  relationship_type = "Grant";
  principal_id = "alice";
  target_id = "org-1";
  granted_authorities = "work_request.create" ∷ [];
  effective_from = some "100Z";
  effective_until = some "110+00:00";
  revoked_at = none;
}

abbrev pub sample_request : DecisionRequest ℕ
sample_request = record {
  transition = sample_transition;
  principal_active = true;
  required_authority = "work_request.create";
  current_state_revision = none;
  authority_evidence = expired_evidence ∷ founding_evidence sample_genesis ∷ [];
  policy_versions = [];
  constraints =
      require_classification "c-1" "1" "region" "eu"
      ∷ forbid_classification "c-2" "1" "region" "us"
      ∷ budget_ceiling "c-3" "1" "usd" 500
      ∷ require_approval "c-4" "1" "approval.manager"
      ∷ [];
  classifications = ("region", "eu") ∷ [];
  cumulative_state = ("usd", 500) ∷ [];
  delegation = none;
  evaluation_time = "120Z";
  correlation_id = none;
}

abbrev pub sample_decision : Decision
sample_decision = record {
  outcome = Outcome.approval_required;
  reason_codes = ReasonCode.approval_triggered ∷ [];
  transition_id = "t-1";
  kernel_version = kernel_version;
  evaluated_at = "120Z";
  resolved_authorities = "auth-1" ∷ [];
  policy_versions = [];
  satisfied_conditions =
      "structural.expected_revision_matches" ∷ "principal.active"
      ∷ "authority.explicit_and_effective" ∷ "c-1" ∷ "c-2" ∷ "c-3" ∷ [];
  failed_conditions = [];
  required_approvals = "approval.manager" ∷ [];
  correlation_id = none;
}
