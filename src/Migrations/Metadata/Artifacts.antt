-- ===== src/Migrations/Metadata/Artifacts.antt =====
-- src/connect_governance/db/models.py: grants, provider listings and activations, and revocation lists, as declared.
use connect_governance.Prelude.{[], ◌∷◌}
use connect_governance.Migrations.{string, text, check}
use connect_governance.Migrations.Metadata.{Model, key, required, optional, looked_up, link}

abbrev pub execution_grant_record_model : Model
execution_grant_record_model = record {
  tablename = "execution_grant_records";
  table_args = [];
  mapped =
      key "id" string
      ∷ looked_up (link "decision_record_id" "decision_records.id")
      ∷ required "grant_json" text
      ∷ looked_up (required "issuer_key_id" string)
      ∷ looked_up (required "provider_id" string)
      ∷ looked_up (required "work_request_id" string)
      ∷ required "issued_at" string
      ∷ optional "not_before" string
      ∷ optional "not_after" string
      ∷ looked_up (optional "correlation_id" string)
      ∷ [];
}

abbrev pub provider_listing_model : Model
provider_listing_model = record {
  tablename = "provider_listings";
  table_args =
      check "enforcement_classification IN ('enforcing', 'monitor_only')"
        "ck_provider_listings_classification"
      ∷ [];
  mapped =
      key "id" string
      ∷ looked_up (required "provider_id" string)
      ∷ required "name" string
      ∷ required "metadata_json" text
      ∷ required "enforcement_classification" string
      ∷ required "classification_evidence_json" text
      ∷ required "recorded_at" string
      ∷ required "provenance" string
      ∷ [];
}

abbrev pub provider_activation_model : Model
provider_activation_model = record {
  tablename = "provider_activations";
  table_args =
      check "state IN ('active', 'disabled', 'revoked')" "ck_provider_activations_state" ∷ [];
  mapped =
      key "id" string
      ∷ looked_up (link "listing_id" "provider_listings.id")
      ∷ looked_up (link "decision_record_id" "decision_records.id")
      ∷ required "state" string
      ∷ required "recorded_at" string
      ∷ required "provenance" string
      ∷ [];
}

abbrev pub revocation_list_record_model : Model
revocation_list_record_model = record {
  tablename = "revocation_list_records";
  table_args = [];
  mapped =
      key "list_id" string
      ∷ looked_up (required "issuer_key_id" string)
      ∷ required "issued_at" string
      ∷ required "list_json" text
      ∷ optional "supersedes" string
      ∷ [];
}
