-- ===== src/Decisions/Recording.antt =====
-- How `evaluate_and_record` can end, and what a Decision Record is then.
use connect_governance.Prelude.{
  String, ◌≡◌, Option, none, some, [], ◌∷◌, Error, Result, ok, err, Option-cases, Result-cases, inl,
  inr,
}
use connect_governance.Kernel.Types.{DecisionRequest, Decision}
use connect_governance.Kernel.Evidence.{Host}
use connect_governance.Kernel.Evaluate.{evaluate}
use connect_governance.Codec.{Codecs}
use connect_governance.Schema.{DecisionRecord}
use connect_governance.Store.{Database, Session, Row, add_all}
use connect_governance.Store.Flush.{written_added, written_refused}
use connect_governance.Store.Growth.{HasRecord, HasRecord_of_add, record_admitted}
use connect_governance.Decisions.{decision_row, record_decision, evaluate_and_record}

module _ {F : Type 0} (host : Host F) (codecs : Codecs F) (db : Database F) (k : String)
    (request : DecisionRequest F) (recorded_at : String) (work_request_id : Option String)
    (s : Session db) where
  abbrev pub row_of : Decision → DecisionRecord
  row_of d = decision_row host codecs db k request d recorded_at work_request_id

  record_decision-added :
      (d : Decision) {t : Session db}
      → add_all db (Row.decision_record (row_of d) ∷ []) s ≡ some t
      → record_decision host codecs db k request d recorded_at work_request_id s
        ≡ (ok (row_of d), t)
  unfolding record_decision
  record_decision-added d e = written_added db (Row.decision_record (row_of d) ∷ []) (row_of d) s e

  record_decision-refused :
      (d : Decision)
      → add_all db (Row.decision_record (row_of d) ∷ []) s ≡ none
      → record_decision host codecs db k request d recorded_at work_request_id s
        ≡ (err Error.integrity_error, s)
  unfolding record_decision
  record_decision-refused d e =
      written_refused db (Row.decision_record (row_of d) ∷ []) (row_of d) s e

  -- The three ends of `evaluate_and_record`.
  pub data Recording : Result (Decision × DecisionRecord) × Session db → Type 0 where
    raised : {e : Error} → evaluate host request ≡ err e → Recording (err e, s)
    refused :
        {d : Decision}
        → evaluate host request ≡ ok d
        → add_all db (Row.decision_record (row_of d) ∷ []) s ≡ none
        → Recording (err Error.integrity_error, s)
    recorded :
        {d : Decision} {t : Session db}
        → evaluate host request ≡ ok d
        → add_all db (Row.decision_record (row_of d) ∷ []) s ≡ some t
        → Recording (ok (d, row_of d), t)

  pub evaluate_and_record_cases :
      Recording (evaluate_and_record host codecs db k request recorded_at work_request_id s)
  unfolding evaluate_and_record
  evaluate_and_record_cases = elim (Result-cases (evaluate host request)) [
    | inr (x, e) ↦ rw e (raised e)
    | inl (d, e) ↦ elim (Option-cases (add_all db (Row.decision_record (row_of d) ∷ []) s)) [
      | inl a ↦ rw (e, record_decision-refused d a) (refused e a)
      | inr (t, a) ↦ rw (e, record_decision-added d a) (recorded e a)
    ]
  ]

  abbrev run : Result (Decision × DecisionRecord) × Session db
  run = evaluate_and_record host codecs db k request recorded_at work_request_id s

  returned_only :
      {d : Decision} {row : DecisionRecord} {t : Session db}
      (r : Result (Decision × DecisionRecord) × Session db)
      → Recording r
      → r ≡ (ok (d, row), t)
      → (evaluate host request ≡ ok d)
        × (row ≡ row_of d)
        × (add_all db (Row.decision_record (row_of d) ∷ []) s ≡ some t)
  returned_only _ (raised e) h = cc
  returned_only _ (refused e a) h = cc
  returned_only _ (recorded e a) h = (cc, cc, cc)

  -- What `evaluate_and_record` did, when it returned.
  pub evaluate_and_record-eq-ok :
      {d : Decision} {row : DecisionRecord} {t : Session db}
      → run ≡ (ok (d, row), t)
      → (evaluate host request ≡ ok d)
        × (row ≡ row_of d)
        × (add_all db (Row.decision_record (row_of d) ∷ []) s ≡ some t)
  evaluate_and_record-eq-ok h = returned_only run evaluate_and_record_cases h

  -- Under an id that no Decision Record has, whatever `evaluate` returns is recorded.
  pub evaluate_and_record_fresh :
      {d : Decision}
      → evaluate host request ≡ ok d
      → db.decision_records.get s.decision_records k ≡ none
      → (t : Session db) × (run ≡ (ok (d, row_of d), t)) × HasRecord db k (row_of d) t
  unfolding decision_row evaluate_and_record
  evaluate_and_record_fresh {d} e free =
      let (t, added) = record_admitted db (row_of d) s free in
      (t, rw (e, record_decision-added d added), HasRecord_of_add db (row_of d) s added)
