-- ===== src/WorkRequests/Authority.antt =====
-- What an intake that returned rests on.
use connect_governance.Prelude.{◌≡◌, refl, subst, true, some, Result, ok, err}
use connect_governance.Kernel.Types.{Outcome, DecisionRequest, Decision}
use connect_governance.Kernel.Evidence.{Host}
use connect_governance.Codec.{Codecs}
use connect_governance.Schema.{WorkRequest}
use connect_governance.Store.{Database, Session, transaction}
use connect_governance.Store.Growth.{
  Grown, same, more, Grown_of_add_all, HasRecord, HasRecord_of_add, Grown-HasRecord,
}
use connect_governance.Resolution.{principal_is_active}
use connect_governance.Resolution.Grounds.{IsGranted}
use connect_governance.Resolution.Outcome.{resolved_outcome}
use connect_governance.Decisions.{decision_row}
use connect_governance.Decisions.Recording.{evaluate_and_record-eq-ok}
use connect_governance.WorkRequests.{
  Intake, required_authority, intake_transition, intake_facts, new_work_request, intake_rows,
  create_work_request,
}
use connect_governance.WorkRequests.Rows.{HasWorkRequest, HasRevision, intake_rows-added}
use connect_governance.WorkRequests.Writes.{
  Ending, unresolved, undecided, refused, conflicting, created, create_work_request_ends,
}

module _ {F : Type 0} (host : Host F) (codecs : Codecs F) (db : Database F) (intake : Intake F)
    (s : Session db) where
  -- What holds of the session before an intake that returned `w`, and of the session `u` after it.
  pub record IsIntake (w : WorkRequest) (u : Session db) : Type 0 where
    pub returned : w ≡ new_work_request intake
    pub active : principal_is_active db s intake.created_by_principal_id ≡ true
    pub granted :
        IsGranted host db codecs.keys s intake.created_by_principal_id "work_request.create"
          intake.recorded_at
    pub request : DecisionRequest F
    pub decision : Decision
    pub is_allowed : decision.outcome ≡ Outcome.allowed
    pub recorded :
        HasRecord db intake.decision_record_id
          (decision_row host codecs db intake.decision_record_id request decision intake.recorded_at
            (some intake.work_request_id))
          u
    pub work_request : HasWorkRequest host codecs db intake u
    pub revision : HasRevision host codecs db intake u

  rests :
      {w : WorkRequest} {u : Session db} (r : Result WorkRequest × Session db)
      → Ending host codecs db intake s r
      → r ≡ (ok w, u)
      → IsIntake w u
  unfolding decision_row
  rests _ (unresolved a) h = cc
  rests _ (undecided a e) h = cc
  rests _ (refused a e o) h = cc
  rests _ (conflicting a e o n) h = cc
  rests {w = w} {u = u} _ (created {request = request} {d = d} {t = t} {u = v} a e o added) h =
      let (evaluated, row_is, added_record) =
        evaluate_and_record-eq-ok host codecs db intake.decision_record_id request
          intake.recorded_at (some intake.work_request_id) s e in
      let (denied, asks, allowed) =
        resolved_outcome host db codecs.keys s (intake_transition intake) required_authority
          intake.recorded_at (intake_facts intake) a evaluated in
      let ((fresh, active, granted, narrow, met), no_approval) = allowed.0 o in
      let row =
        decision_row host codecs db intake.decision_record_id request d intake.recorded_at
          (some intake.work_request_id) in
      let here = HasRecord_of_add db row s added_record in
      let rows = intake_rows host codecs db intake in
      let grown = subst (λ x. Grown db t x) (Grown_of_add_all db rows t added) (more rows same) in
      let after = intake_rows-added host codecs db intake t added in
      let e' : v ≡ u = cc h in
      record {
        returned = cc;
        active = active;
        granted = granted;
        request = request;
        decision = d;
        is_allowed = o;
        recorded =
            subst (HasRecord db intake.decision_record_id row) e'
              (Grown-HasRecord db intake.decision_record_id row grown here);
        work_request = subst (HasWorkRequest host codecs db intake) e' after.0;
        revision = subst (HasRevision host codecs db intake) e' after.1;
      }

  -- What the caller's transaction around an intake comes to.
  abbrev pub Committed : Result WorkRequest × Session db → Type 0
  Committed (ok w, u) = IsIntake w u
  Committed (err e, u) = u ≡ s

  committed :
      (r : Result WorkRequest × Session db)
      → create_work_request host codecs db intake s ≡ r
      → Committed (transaction (create_work_request host codecs db intake) s)
  unfolding transaction
  committed (ok w, u) h = rw h (
      rests (create_work_request host codecs db intake s)
        (create_work_request_ends host codecs db intake s) h)
  committed (err e, u) h = rw h

  -- An intake within its transaction either returns the new Work Request, and then the store had
  -- an active creating principal with a grant of "work_request.create" in force at the recording,
  -- and holds the Allowed Decision Record, the Work Request and its first revision; or it raises,
  -- and the session is as it was.
  pub create_work_request-Committed :
      Committed (transaction (create_work_request host codecs db intake) s)
  create_work_request-Committed = committed _ refl
