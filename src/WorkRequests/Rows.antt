-- ===== src/WorkRequests/Rows.antt =====
-- The two rows of an intake, once they are flushed.
use connect_governance.Prelude.{◌≡◌, subst, some, [], ◌∷◌, arith, eq_refl}
use connect_governance.Codec.{Codecs}
use connect_governance.Kernel.Evidence.{Host}
use connect_governance.Store.{Database, Session, Row, add, add_all}
use connect_governance.Store.Laws.{get-insert_self, text_same}
use connect_governance.Store.Growth.{put_back_view, add_all-first}
use connect_governance.WorkRequests.{Intake, new_work_request, first_revision, intake_rows}

module _ {F : Type 0} (host : Host F) (codecs : Codecs F) (db : Database F)
    (intake : Intake F) where
  abbrev pub HasWorkRequest : Session db → Type 0
  HasWorkRequest s =
      db.work_requests.get s.work_requests intake.work_request_id ≡ some (new_work_request intake)

  abbrev pub HasRevision : Session db → Type 0
  HasRevision s =
      db.work_request_revisions.get s.work_request_revisions intake.revision_id
      ≡ some (first_revision host codecs db intake)

  add_request :
      (s : Session db) {t : Session db}
      → add db (Row.work_request (new_work_request intake)) s ≡ some t
      → HasWorkRequest t
  unfolding add
  add_request s {t} h =
      let row = new_work_request intake in
      put_back_view _ (db.work_requests.insert row s.work_requests)
        (λ (w : Session db). db.work_requests.get w.work_requests row.id)
        (λ u e.
          get-insert_self db.work_requests text_same (λ rows r a. a) row s.work_requests
            (eq_refl row.id) e)
        h

  add_revision :
      (s : Session db) {t : Session db}
      → add db (Row.work_request_revision (first_revision host codecs db intake)) s ≡ some t
      → HasWorkRequest s
      → HasWorkRequest t × HasRevision t
  unfolding add
  add_revision s {t} h there =
      let row = first_revision host codecs db intake in
      (
        put_back_view _ (db.work_request_revisions.insert row s.work_request_revisions)
            (λ (w : Session db). db.work_requests.get w.work_requests intake.work_request_id)
            (λ u e. there) h,
        put_back_view _ (db.work_request_revisions.insert row s.work_request_revisions)
            (λ (w : Session db). db.work_request_revisions.get w.work_request_revisions row.id)
            (λ u e.
              get-insert_self db.work_request_revisions text_same (λ rows r a. ground arith) row
                s.work_request_revisions (eq_refl row.id) e)
            h,
      )

  pub intake_rows-added :
      (s : Session db) {u : Session db}
      → add_all db (intake_rows host codecs db intake) s ≡ some u
      → HasWorkRequest u × HasRevision u
  unfolding add_all
  intake_rows-added s {u} h =
      let (t, first, h') =
        add_all-first db (Row.work_request (new_work_request intake))
          (Row.work_request_revision (first_revision host codecs db intake) ∷ []) s h in
      let (v, second, last) =
        add_all-first db (Row.work_request_revision (first_revision host codecs db intake)) [] t
          h' in
      let e : v ≡ u = cc last in
      subst (λ x. HasWorkRequest x × HasRevision x) e (add_revision t second (add_request s first))
