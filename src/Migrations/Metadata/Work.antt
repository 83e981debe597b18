-- ===== src/Migrations/Metadata/Work.antt =====
-- src/connect_governance/db/models.py: Work Requests, their revisions and the Decision Records, as declared.
use connect_governance.Prelude.{[], ◌∷◌}
use connect_governance.Migrations.{string, text, integer, float, unique, check}
use connect_governance.Migrations.Metadata.{Model, key, required, optional, looked_up, link}

abbrev pub work_request_model : Model
work_request_model = record {
  tablename = "work_requests";
  table_args = [];
  mapped =
      key "id" string
      ∷ link "owner_organization_id" "organizations.id"
      ∷ link "workspace_id" "workspaces.id"
      ∷ required "created_by_principal_id" string
      ∷ required "recorded_at" string
      ∷ required "provenance" string
      ∷ [];
}

abbrev pub work_request_revision_model : Model
work_request_revision_model = record {
  tablename = "work_request_revisions";
  table_args =
      unique ("work_request_id" ∷ "revision_number" ∷ []) "uq_wrr_number"
      ∷ unique ("state_revision" ∷ []) "uq_wrr_state_revision"
      ∷ check "revision_number >= 1" "ck_wrr_number_positive"
      ∷ [];
  mapped =
      key "id" string
      ∷ looked_up (link "work_request_id" "work_requests.id")
      ∷ required "revision_number" integer
      ∷ required "state_revision" string
      ∷ required "governance_json" text
      ∷ required "granted_authorities" text
      ∷ optional "budget_ceiling_usd" float
      ∷ optional "supersedes_revision_id" string
      ∷ required "recorded_at" string
      ∷ required "provenance" string
      ∷ [];
}

abbrev pub decision_record_model : Model
decision_record_model = record {
  tablename = "decision_records";
  table_args = [];
  mapped =
      key "id" string
      ∷ looked_up (required "transition_id" string)
      ∷ looked_up (required "outcome" string)
      ∷ required "request_json" text
      ∷ required "decision_json" text
      ∷ required "kernel_version" string
      ∷ required "conformance_spec_version" string
      ∷ required "evaluated_at" string
      ∷ required "recorded_at" string
      ∷ looked_up (optional "correlation_id" string)
      ∷ looked_up (optional "work_request_id" string)
      ∷ optional "work_request_revision" string
      ∷ [];
}
