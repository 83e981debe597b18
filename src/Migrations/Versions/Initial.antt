-- ===== src/Migrations/Versions/Initial.antt =====
-- alembic/versions/ba04fd9f1a6b_initial_governed_state_for_the_vertical_.py.
use connect_governance.Prelude.{true, false, none, List, [], ◌∷◌}
use connect_governance.Migrations.{
  string, text, boolean, integer, float, Element, column, primary_key, foreign_key, unique, check,
  Operation, create_table, create_index, drop_index, drop_table,
}
use connect_governance.Migrations.Versions.{Revision}

-- The elements of `create_table` for "agents".
abbrev pub agents : List Element
agents =
    column "id" string false
    ∷ column "display_name" string false
    ∷ column "active" boolean false
    ∷ column "recorded_at" string false
    ∷ column "provenance" string false
    ∷ primary_key ("id" ∷ [])
    ∷ []

-- The elements of `create_table` for "authority_relationships".
abbrev pub authority_relationships : List Element
authority_relationships =
    column "id" string false
    ∷ column "relationship_type" string false
    ∷ column "principal_id" string false
    ∷ column "target_id" string false
    ∷ column "granted_authorities" text false
    ∷ column "effective_from" string true
    ∷ column "effective_until" string true
    ∷ column "revoked_at" string true
    ∷ column "recorded_at" string false
    ∷ column "provenance" string false
    ∷ primary_key ("id" ∷ [])
    ∷ []

-- The elements of `create_table` for "decision_records".
abbrev pub decision_records : List Element
decision_records =
    column "id" string false
    ∷ column "transition_id" string false
    ∷ column "outcome" string false
    ∷ column "request_json" text false
    ∷ column "decision_json" text false
    ∷ column "kernel_version" string false
    ∷ column "conformance_spec_version" string false
    ∷ column "evaluated_at" string false
    ∷ column "recorded_at" string false
    ∷ column "correlation_id" string true
    ∷ column "work_request_id" string true
    ∷ column "work_request_revision" string true
    ∷ primary_key ("id" ∷ [])
    ∷ []

-- The elements of `create_table` for "genesis_record".
abbrev pub genesis_record : List Element
genesis_record =
    column "singleton" integer false
    ∷ column "deployment_root_fingerprint" string false
    ∷ column "installer" string false
    ∷ column "software_version" string false
    ∷ column "initial_policy_hash" string false
    ∷ column "initial_config_hash" string false
    ∷ column "founding_person_id" string false
    ∷ column "initial_organization_id" string false
    ∷ column "initial_authority_id" string false
    ∷ column "recorded_at" string false
    ∷ check "singleton = 1" "ck_genesis_singleton"
    ∷ primary_key ("singleton" ∷ [])
    ∷ []

-- The elements of `create_table` for "organizations".
abbrev pub organizations : List Element
organizations =
    column "id" string false
    ∷ column "name" string false
    ∷ column "recorded_at" string false
    ∷ column "provenance" string false
    ∷ primary_key ("id" ∷ [])
    ∷ []

-- The elements of `create_table` for "persons".
abbrev pub persons : List Element
persons =
    column "id" string false
    ∷ column "display_name" string false
    ∷ column "active" boolean false
    ∷ column "recorded_at" string false
    ∷ column "provenance" string false
    ∷ primary_key ("id" ∷ [])
    ∷ []

-- The elements of `create_table` for "workspaces".
abbrev pub workspaces : List Element
workspaces =
    column "id" string false
    ∷ column "organization_id" string false
    ∷ column "name" string false
    ∷ column "recorded_at" string false
    ∷ column "provenance" string false
    ∷ foreign_key ("organization_id" ∷ []) ("organizations.id" ∷ [])
    ∷ primary_key ("id" ∷ [])
    ∷ []

-- The elements of `create_table` for "work_requests".
abbrev pub work_requests : List Element
work_requests =
    column "id" string false
    ∷ column "owner_organization_id" string false
    ∷ column "workspace_id" string false
    ∷ column "created_by_principal_id" string false
    ∷ column "recorded_at" string false
    ∷ column "provenance" string false
    ∷ foreign_key ("owner_organization_id" ∷ []) ("organizations.id" ∷ [])
    ∷ foreign_key ("workspace_id" ∷ []) ("workspaces.id" ∷ [])
    ∷ primary_key ("id" ∷ [])
    ∷ []

-- The elements of `create_table` for "work_request_revisions".
abbrev pub work_request_revisions : List Element
work_request_revisions =
    column "id" string false
    ∷ column "work_request_id" string false
    ∷ column "revision_number" integer false
    ∷ column "state_revision" string false
    ∷ column "governance_json" text false
    ∷ column "granted_authorities" text false
    ∷ column "budget_ceiling_usd" float true
    ∷ column "supersedes_revision_id" string true
    ∷ column "recorded_at" string false
    ∷ column "provenance" string false
    ∷ check "revision_number >= 1" "ck_wrr_number_positive"
    ∷ foreign_key ("work_request_id" ∷ []) ("work_requests.id" ∷ [])
    ∷ primary_key ("id" ∷ [])
    ∷ unique ("state_revision" ∷ []) "uq_wrr_state_revision"
    ∷ unique ("work_request_id" ∷ "revision_number" ∷ []) "uq_wrr_number"
    ∷ []

abbrev pub initial_upgrade : List Operation
initial_upgrade =
    create_table "agents" agents
    ∷ create_table "authority_relationships" authority_relationships
    ∷ create_index "ix_authority_relationships_principal_id" (record {
      table_name = "authority_relationships";
      columns = ("principal_id" ∷ []);
      is_unique = false;
    })
    ∷ create_table "decision_records" decision_records
    ∷ create_index "ix_decision_records_correlation_id" (record {
      table_name = "decision_records";
      columns = ("correlation_id" ∷ []);
      is_unique = false;
    })
    ∷ create_index "ix_decision_records_outcome"
        (record { table_name = "decision_records"; columns = ("outcome" ∷ []); is_unique = false })
    ∷ create_index "ix_decision_records_transition_id" (record {
      table_name = "decision_records";
      columns = ("transition_id" ∷ []);
      is_unique = false;
    })
    ∷ create_index "ix_decision_records_work_request_id" (record {
      table_name = "decision_records";
      columns = ("work_request_id" ∷ []);
      is_unique = false;
    })
    ∷ create_table "genesis_record" genesis_record
    ∷ create_table "organizations" organizations
    ∷ create_table "persons" persons
    ∷ create_table "workspaces" workspaces
    ∷ create_table "work_requests" work_requests
    ∷ create_table "work_request_revisions" work_request_revisions
    ∷ create_index "ix_work_request_revisions_work_request_id" (record {
      table_name = "work_request_revisions";
      columns = ("work_request_id" ∷ []);
      is_unique = false;
    })
    ∷ []

abbrev pub initial_downgrade : List Operation
initial_downgrade =
    drop_index "work_request_revisions" "ix_work_request_revisions_work_request_id"
    ∷ drop_table "work_request_revisions"
    ∷ drop_table "work_requests"
    ∷ drop_table "workspaces"
    ∷ drop_table "persons"
    ∷ drop_table "organizations"
    ∷ drop_table "genesis_record"
    ∷ drop_index "decision_records" "ix_decision_records_work_request_id"
    ∷ drop_index "decision_records" "ix_decision_records_transition_id"
    ∷ drop_index "decision_records" "ix_decision_records_outcome"
    ∷ drop_index "decision_records" "ix_decision_records_correlation_id"
    ∷ drop_table "decision_records"
    ∷ drop_index "authority_relationships" "ix_authority_relationships_principal_id"
    ∷ drop_table "authority_relationships"
    ∷ drop_table "agents"
    ∷ []

abbrev pub initial : Revision
initial = record {
  revision = "ba04fd9f1a6b";
  down_revision = none;
  upgrade = initial_upgrade;
  downgrade = initial_downgrade;
}
