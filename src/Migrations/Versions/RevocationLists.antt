-- ===== src/Migrations/Versions/RevocationLists.antt =====
-- alembic/versions/d8f1b34c9e07_revocation_list_records.py.
use connect_governance.Prelude.{true, false, some, List, [], ◌∷◌}
use connect_governance.Migrations.{
  string, text, Element, column, primary_key, Operation, create_table, create_index, drop_index,
  drop_table,
}
use connect_governance.Migrations.Versions.{Revision}

-- The elements of `create_table` for "revocation_list_records".
abbrev pub revocation_list_records : List Element
revocation_list_records =
    column "list_id" string false
    ∷ column "issuer_key_id" string false
    ∷ column "issued_at" string false
    ∷ column "list_json" text false
    ∷ column "supersedes" string true
    ∷ primary_key ("list_id" ∷ [])
    ∷ []

abbrev pub revocation_lists_upgrade : List Operation
revocation_lists_upgrade =
    create_table "revocation_list_records" revocation_list_records
    ∷ create_index "ix_revocation_list_records_issuer_key_id" (record {
      table_name = "revocation_list_records";
      columns = ("issuer_key_id" ∷ []);
      is_unique = false;
    })
    ∷ []

abbrev pub revocation_lists_downgrade : List Operation
revocation_lists_downgrade =
    drop_index "revocation_list_records" "ix_revocation_list_records_issuer_key_id"
    ∷ drop_table "revocation_list_records"
    ∷ []

abbrev pub revocation_lists : Revision
revocation_lists = record {
  revision = "d8f1b34c9e07";
  down_revision = some "c7e2a91f3b04";
  upgrade = revocation_lists_upgrade;
  downgrade = revocation_lists_downgrade;
}
