-- ===== src/Migrations/Versions/ProviderMarketplace.antt =====
-- alembic/versions/e3b2a91d7c55_provider_listings_and_activations.py.
use connect_governance.Prelude.{false, some, List, [], ◌∷◌}
use connect_governance.Migrations.{
  string, text, Element, column, primary_key, foreign_key, check, Operation, create_table,
  create_index, drop_index, drop_table,
}
use connect_governance.Migrations.Versions.{Revision}

-- The elements of `create_table` for "provider_listings".
abbrev pub provider_listings : List Element
provider_listings =
    column "id" string false
    ∷ column "provider_id" string false
    ∷ column "name" string false
    ∷ column "metadata_json" text false
    ∷ column "enforcement_classification" string false
    ∷ column "classification_evidence_json" text false
    ∷ column "recorded_at" string false
    ∷ column "provenance" string false
    ∷ check "enforcement_classification IN ('enforcing', 'monitor_only')"
        "ck_provider_listings_classification"
    ∷ primary_key ("id" ∷ [])
    ∷ []

-- The elements of `create_table` for "provider_activations".
abbrev pub provider_activations : List Element
provider_activations =
    column "id" string false
    ∷ column "listing_id" string false
    ∷ column "decision_record_id" string false
    ∷ column "state" string false
    ∷ column "recorded_at" string false
    ∷ column "provenance" string false
    ∷ check "state IN ('active', 'disabled', 'revoked')" "ck_provider_activations_state"
    ∷ foreign_key ("decision_record_id" ∷ []) ("decision_records.id" ∷ [])
    ∷ foreign_key ("listing_id" ∷ []) ("provider_listings.id" ∷ [])
    ∷ primary_key ("id" ∷ [])
    ∷ []

abbrev pub provider_marketplace_upgrade : List Operation
provider_marketplace_upgrade =
    create_table "provider_listings" provider_listings
    ∷ create_index "ix_provider_listings_provider_id" (record {
      table_name = "provider_listings";
      columns = ("provider_id" ∷ []);
      is_unique = false;
    })
    ∷ create_table "provider_activations" provider_activations
    ∷ create_index "ix_provider_activations_decision_record_id" (record {
      table_name = "provider_activations";
      columns = ("decision_record_id" ∷ []);
      is_unique = false;
    })
    ∷ create_index "ix_provider_activations_listing_id" (record {
      table_name = "provider_activations";
      columns = ("listing_id" ∷ []);
      is_unique = false;
    })
    ∷ []

abbrev pub provider_marketplace_downgrade : List Operation
provider_marketplace_downgrade =
    drop_index "provider_activations" "ix_provider_activations_listing_id"
    ∷ drop_index "provider_activations" "ix_provider_activations_decision_record_id"
    ∷ drop_table "provider_activations"
    ∷ drop_index "provider_listings" "ix_provider_listings_provider_id"
    ∷ drop_table "provider_listings"
    ∷ []

abbrev pub provider_marketplace : Revision
provider_marketplace = record {
  revision = "e3b2a91d7c55";
  down_revision = some "d8f1b34c9e07";
  upgrade = provider_marketplace_upgrade;
  downgrade = provider_marketplace_downgrade;
}
