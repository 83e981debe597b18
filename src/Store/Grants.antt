-- ===== src/Store/Grants.antt =====
-- A grant record that is there stays, whatever rows are added.
use connect_governance.Prelude.{String, ◌≡◌, some, [], ◌∷◌, eq_refl}
use connect_governance.Schema.{ExecutionGrantRecord}
use connect_governance.Store.{Database, Session, Row, add, add_all}
use connect_governance.Store.Laws.{get-insert_old, get-insert_self, text_same}
use connect_governance.Store.Growth.{put_back_view, add_of_add_all, flush_keeps, Grown, same, more}

module _ {F : Type 0} (db : Database F) where
  abbrev pub HasGrantRecord : String → ExecutionGrantRecord → Session db → Type 0
  HasGrantRecord k x s = db.execution_grant_records.get s.execution_grant_records k ≡ some x

  grant_record_kept :
      (r : Row F) (k : String) (x : ExecutionGrantRecord) (s : Session db) {t : Session db}
      → add db r s ≡ some t
      → HasGrantRecord k x s
      → HasGrantRecord k x t
  unfolding add
  grant_record_kept (Row.execution_grant_record r) k x s {t} e h =
      put_back_view _ (db.execution_grant_records.insert r s.execution_grant_records)
        (λ (w : Session db). db.execution_grant_records.get w.execution_grant_records k)
        (λ u e'.
          get-insert_old db.execution_grant_records text_same (λ rows r' a. a) r x
            s.execution_grant_records k e' h)
        e
  grant_record_kept _ k x s {t} e h =
      put_back_view _ _
        (λ (w : Session db). db.execution_grant_records.get w.execution_grant_records k) (λ u e'. h)
        e

  pub Grown-HasGrantRecord :
      (k : String) (x : ExecutionGrantRecord) {s t : Session db}
      → Grown db s t
      → HasGrantRecord k x s
      → HasGrantRecord k x t
  Grown-HasGrantRecord k x same h = h
  Grown-HasGrantRecord k x (more {t = t} rows g) h =
      flush_keeps db (HasGrantRecord k x) (λ r s t. grant_record_kept r k x s) rows t
        (Grown-HasGrantRecord k x g h)

  -- A grant record that was added is found under its id.
  pub HasGrantRecord-of_add :
      (r : ExecutionGrantRecord) (s : Session db) {t : Session db}
      → add_all db (Row.execution_grant_record r ∷ []) s ≡ some t
      → HasGrantRecord r.id r t
  unfolding add
  HasGrantRecord-of_add r s {t} h =
      put_back_view _ (db.execution_grant_records.insert r s.execution_grant_records)
        (λ (w : Session db). db.execution_grant_records.get w.execution_grant_records r.id)
        (λ u e.
          get-insert_self db.execution_grant_records text_same (λ rows r' a. a) r
            s.execution_grant_records (eq_refl r.id) e)
        (add_of_add_all db (Row.execution_grant_record r) s h)
