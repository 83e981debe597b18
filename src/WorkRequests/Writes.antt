-- ===== src/WorkRequests/Writes.antt =====
-- How `create_work_request` can end, and what it has written then.
use connect_governance.Prelude.{
  ◌≡◌, ◌≢◌, refl, false, none, some, Error, Result, ok, err, Option-cases, Result-cases, inl, inr,
  ◌==◌, ◌⊎◌,
}
use connect_governance.Kernel.Types.{Outcome, outcome_value, DecisionRequest, Decision}
use connect_governance.Kernel.Evidence.{Host}
use connect_governance.Codec.{Codecs}
use connect_governance.Schema.{DecisionRecord, WorkRequest}
use connect_governance.Store.{Database, Session, add_all, flush, continue}
use connect_governance.Resolution.{build_decision_request}
use connect_governance.Decisions.{evaluate_and_record}
use connect_governance.WorkRequests.{
  Intake, intake_transition, intake_facts, required_authority, new_work_request, intake_rows,
  write_if_allowed, create_work_request,
}

is_allowed :
    (o : Outcome)
    → (o ≡ Outcome.allowed) ⊎ ((o ≢ Outcome.allowed) × ((outcome_value o == "Allowed") ≡ false))
unfolding outcome_value
is_allowed Outcome.allowed = inl refl
is_allowed Outcome.denied = inr (λ e. cc, refl)
is_allowed Outcome.approval_required = inr (λ e. cc, refl)

module _ {F : Type 0} (host : Host F) (codecs : Codecs F) (db : Database F) (intake : Intake F)
    (s : Session db) where
  -- The request that the intake puts to the Kernel.
  abbrev pub asked : Result (DecisionRequest F)
  asked =
      build_decision_request db codecs.keys s (intake_transition intake) required_authority
        intake.recorded_at (intake_facts intake)

  abbrev pub decided : DecisionRequest F → Result (Decision × DecisionRecord) × Session db
  decided request =
      evaluate_and_record host codecs db intake.decision_record_id request intake.recorded_at
        (some intake.work_request_id) s

  -- The ends of `create_work_request`: no request, no recorded Decision, a Decision that is not
  -- Allowed, rows that the constraints refuse, or both rows written. The session beside an exception
  -- is the one that the rollback of the transaction discards.
  pub data Ending : Result WorkRequest × Session db → Type 0 where
    unresolved : {e : Error} → asked ≡ err e → Ending (err e, s)
    undecided :
        {request : DecisionRequest F} {e : Error} {t : Session db}
        → asked ≡ ok request
        → decided request ≡ (err e, t)
        → Ending (err e, t)
    refused :
        {request : DecisionRequest F} {d : Decision} {row : DecisionRecord} {t : Session db}
        → asked ≡ ok request
        → decided request ≡ (ok (d, row), t)
        → d.outcome ≢ Outcome.allowed
        → Ending (err Error.work_request_refused, t)
    conflicting :
        {request : DecisionRequest F} {d : Decision} {row : DecisionRecord} {t : Session db}
        → asked ≡ ok request
        → decided request ≡ (ok (d, row), t)
        → d.outcome ≡ Outcome.allowed
        → add_all db (intake_rows host codecs db intake) t ≡ none
        → Ending (err Error.integrity_error, t)
    created :
        {request : DecisionRequest F} {d : Decision} {row : DecisionRecord} {t u : Session db}
        → asked ≡ ok request
        → decided request ≡ (ok (d, row), t)
        → d.outcome ≡ Outcome.allowed
        → add_all db (intake_rows host codecs db intake) t ≡ some u
        → Ending (ok (new_work_request intake), u)

  written :
      (request : DecisionRequest F) (d : Decision) (row : DecisionRecord) (t : Session db)
      → asked ≡ ok request
      → decided request ≡ (ok (d, row), t)
      → Ending (write_if_allowed host codecs db intake d t)
  unfolding write_if_allowed flush
  written request d row t a r = elim (is_allowed d.outcome) [
    | inr (other, e) ↦ rw (write_if_allowed, e) (refused a r other)
    | inl allowed ↦ elim (Option-cases (add_all db (intake_rows host codecs db intake) t)) [
      | inl e ↦ rw (write_if_allowed, allowed, outcome_value, flush, e) (conflicting a r allowed e)
      | inr (u, e) ↦ rw (write_if_allowed, allowed, outcome_value, flush, e) (created a r allowed e)
    ]
  ]

  after_decision :
      (request : DecisionRequest F) (r : Result (Decision × DecisionRecord) × Session db)
      → asked ≡ ok request
      → decided request ≡ r
      → Ending (continue r.0 (λ p. write_if_allowed host codecs db intake p.0) r.1)
  after_decision request (ok (d, row), t) a e = written request d row t a e
  after_decision request (err x, t) a e = undecided a e

  -- Which of the five it is. The session beside an exception is gone once the caller's transaction
  -- has rolled back.
  pub create_work_request_ends : Ending (create_work_request host codecs db intake s)
  unfolding create_work_request
  create_work_request_ends = elim (Result-cases asked) [
    | inr (x, e) ↦ rw e (unresolved e)
    | inl (request, a) ↦ rw a (after_decision request (decided request) a refl)
  ]
