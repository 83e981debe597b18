-- ===== src/WorkRequests.antt =====
-- src/connect_governance/work_requests.py: Work Request intake, a governed act.
pub mod Writes
pub mod Rows
pub mod Authority
use connect_governance.Prelude.{
  String, Option, none, some, List, [], ◌∷◌, ◌==◌, if◌then◌else◌, Error,
}
use connect_governance.Kernel.Json.{Json, Fields}
use connect_governance.Kernel.Types.{Transition, Decision, outcome_value}
use connect_governance.Kernel.Evidence.{Host}
use connect_governance.Codec.{Codecs}
use connect_governance.Schema.{WorkRequest, WorkRequestRevision}
use connect_governance.Store.{Database, Row, Exec, pure, raise, reads, flush, ◌>>=◌, ◌>>◌}
use connect_governance.Resolution.{Facts, build_decision_request}
use connect_governance.Decisions.{evaluate_and_record}

abbrev pub required_authority : String
required_authority = "work_request.create"

-- The keyword arguments of `create_work_request`.
pub record Intake (F : Type 0) : Type 0 where
  pub work_request_id : String
  pub owner_organization_id : String
  pub workspace_id : String
  pub created_by_principal_id : String
  pub revision_id : String
  pub state_revision : String
  pub governance : Fields F
  pub granted_authorities : List String
  pub budget_ceiling_usd : Option F
  pub transition_id : String
  pub decision_record_id : String
  pub recorded_at : String
  pub correlation_id : Option String

-- The Transition of an intake; its claims are {"work_request_id": work_request_id}.
abbrev pub intake_transition : {F : Type 0} → Intake F → Transition F
intake_transition intake = record {
  transition_id = intake.transition_id;
  transition_type = "CreateWorkRequest";
  proposed_by_principal_id = intake.created_by_principal_id;
  target_type = "WorkRequest";
  target_id = some intake.work_request_id;
  operation = "create";
  claims = Fields.field "work_request_id" (Json.str intake.work_request_id) Fields.end;
  expected_state_revision = none;
}

abbrev pub intake_facts : {F : Type 0} → Intake F → Facts F
intake_facts intake = record {
  work_request_id = none;
  policy_versions = [];
  constraints = [];
  classifications = none;
  cumulative_state = none;
  delegation = none;
  correlation_id = intake.correlation_id;
}

abbrev pub new_work_request : {F : Type 0} → Intake F → WorkRequest
new_work_request intake = record {
  id = intake.work_request_id;
  owner_organization_id = intake.owner_organization_id;
  workspace_id = intake.workspace_id;
  created_by_principal_id = intake.created_by_principal_id;
  recorded_at = intake.recorded_at;
  provenance = intake.transition_id;
}

module _ {F : Type 0} (host : Host F) (codecs : Codecs F) (db : Database F) where
  abbrev pub first_revision : Intake F → WorkRequestRevision F
  first_revision intake = record {
    id = intake.revision_id;
    work_request_id = intake.work_request_id;
    revision_number = 1;
    state_revision = intake.state_revision;
    governance_json = codecs.canonical_document (Json.obj intake.governance);
    granted_authorities = codecs.canonical_keys intake.granted_authorities;
    budget_ceiling_usd = intake.budget_ceiling_usd;
    supersedes_revision_id = none;
    recorded_at = intake.recorded_at;
    provenance = intake.transition_id;
  }

  abbrev pub intake_rows : Intake F → List (Row F)
  intake_rows intake =
      Row.work_request (new_work_request intake)
      ∷ Row.work_request_revision (first_revision intake)
      ∷ []

  -- What follows the Decision: a refusal, or the two rows.
  unfoldable pub write_if_allowed : Intake F → Decision → Exec db WorkRequest
  unfolding outcome_value
  write_if_allowed intake decision =
      if outcome_value decision.outcome == "Allowed"
      then (flush db (intake_rows intake) >> pure (new_work_request intake))
      else raise Error.work_request_refused

  unfoldable pub create_work_request : Intake F → Exec db WorkRequest
  create_work_request intake = do
    request ← reads (λ s.
        build_decision_request db codecs.keys s (intake_transition intake) required_authority
          intake.recorded_at (intake_facts intake))
    decided ←
        evaluate_and_record host codecs db intake.decision_record_id request intake.recorded_at
          (some intake.work_request_id)
    write_if_allowed intake decided.0
