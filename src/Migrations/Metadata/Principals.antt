-- ===== src/Migrations/Metadata/Principals.antt =====
-- src/connect_governance/db/models.py: who there is, what they may do, and the trust root, as declared.
use connect_governance.Prelude.{[], ◌∷◌}
use connect_governance.Migrations.{string, text, boolean, integer, check}
use connect_governance.Migrations.Metadata.{Model, key, required, optional, looked_up, link}

abbrev pub organization_model : Model
organization_model = record {
  tablename = "organizations";
  table_args = [];
  mapped =
      key "id" string
      ∷ required "name" string
      ∷ required "recorded_at" string
      ∷ required "provenance" string
      ∷ [];
}

abbrev pub workspace_model : Model
workspace_model = record {
  tablename = "workspaces";
  table_args = [];
  mapped =
      key "id" string
      ∷ link "organization_id" "organizations.id"
      ∷ required "name" string
      ∷ required "recorded_at" string
      ∷ required "provenance" string
      ∷ [];
}

abbrev pub person_model : Model
person_model = record {
  tablename = "persons";
  table_args = [];
  mapped =
      key "id" string
      ∷ required "display_name" string
      ∷ required "active" boolean
      ∷ required "recorded_at" string
      ∷ required "provenance" string
      ∷ [];
}

abbrev pub agent_model : Model
agent_model = record {
  tablename = "agents";
  table_args = [];
  mapped =
      key "id" string
      ∷ required "display_name" string
      ∷ required "active" boolean
      ∷ required "recorded_at" string
      ∷ required "provenance" string
      ∷ [];
}

abbrev pub authority_relationship_model : Model
authority_relationship_model = record {
  tablename = "authority_relationships";
  table_args = [];
  mapped =
      key "id" string
      ∷ required "relationship_type" string
      ∷ looked_up (required "principal_id" string)
      ∷ required "target_id" string
      ∷ required "granted_authorities" text
      ∷ optional "effective_from" string
      ∷ optional "effective_until" string
      ∷ optional "revoked_at" string
      ∷ required "recorded_at" string
      ∷ required "provenance" string
      ∷ [];
}

abbrev pub genesis_record_model : Model
genesis_record_model = record {
  tablename = "genesis_record";
  table_args = check "singleton = 1" "ck_genesis_singleton" ∷ [];
  mapped =
      key "singleton" integer
      ∷ required "deployment_root_fingerprint" string
      ∷ required "installer" string
      ∷ required "software_version" string
      ∷ required "initial_policy_hash" string
      ∷ required "initial_config_hash" string
      ∷ required "founding_person_id" string
      ∷ required "initial_organization_id" string
      ∷ required "initial_authority_id" string
      ∷ required "recorded_at" string
      ∷ [];
}
