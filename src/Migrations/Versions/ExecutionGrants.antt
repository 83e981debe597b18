-- ===== src/Migrations/Versions/ExecutionGrants.antt =====
-- alembic/versions/c7e2a91f3b04_execution_grant_records.py.
use connect_governance.Prelude.{true, false, some, List, [], ◌∷◌}
use connect_governance.Migrations.{
  string, text, Element, column, primary_key, foreign_key, Operation, create_table, create_index,
  drop_index, drop_table,
}
use connect_governance.Migrations.Versions.{Revision}

-- The elements of `create_table` for "execution_grant_records".
abbrev pub execution_grant_records : List Element
execution_grant_records =
    column "id" string false
    ∷ column "decision_record_id" string false
    ∷ column "grant_json" text false
    ∷ column "issuer_key_id" string false
    ∷ column "provider_id" string false
    ∷ column "work_request_id" string false
    ∷ column "issued_at" string false
    ∷ column "not_before" string true
    ∷ column "not_after" string true
    ∷ column "correlation_id" string true
    ∷ foreign_key ("decision_record_id" ∷ []) ("decision_records.id" ∷ [])
    ∷ primary_key ("id" ∷ [])
    ∷ []

abbrev pub execution_grants_upgrade : List Operation
execution_grants_upgrade =
    create_table "execution_grant_records" execution_grant_records
    ∷ create_index "ix_execution_grant_records_correlation_id" (record {
      table_name = "execution_grant_records";
      columns = ("correlation_id" ∷ []);
      is_unique = false;
    })
    ∷ create_index "ix_execution_grant_records_decision_record_id" (record {
      table_name = "execution_grant_records";
      columns = ("decision_record_id" ∷ []);
      is_unique = false;
    })
    ∷ create_index "ix_execution_grant_records_issuer_key_id" (record {
      table_name = "execution_grant_records";
      columns = ("issuer_key_id" ∷ []);
      is_unique = false;
    })
    ∷ create_index "ix_execution_grant_records_provider_id" (record {
      table_name = "execution_grant_records";
      columns = ("provider_id" ∷ []);
      is_unique = false;
    })
    ∷ create_index "ix_execution_grant_records_work_request_id" (record {
      table_name = "execution_grant_records";
      columns = ("work_request_id" ∷ []);
      is_unique = false;
    })
    ∷ []

abbrev pub execution_grants_downgrade : List Operation
execution_grants_downgrade =
    drop_index "execution_grant_records" "ix_execution_grant_records_work_request_id"
    ∷ drop_index "execution_grant_records" "ix_execution_grant_records_provider_id"
    ∷ drop_index "execution_grant_records" "ix_execution_grant_records_issuer_key_id"
    ∷ drop_index "execution_grant_records" "ix_execution_grant_records_decision_record_id"
    ∷ drop_index "execution_grant_records" "ix_execution_grant_records_correlation_id"
    ∷ drop_table "execution_grant_records"
    ∷ []

abbrev pub execution_grants : Revision
execution_grants = record {
  revision = "c7e2a91f3b04";
  down_revision = some "ba04fd9f1a6b";
  upgrade = execution_grants_upgrade;
  downgrade = execution_grants_downgrade;
}
