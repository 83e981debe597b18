-- ===== src/Decisions.antt =====
-- src/connect_governance/decisions.py: every evaluation leaves a Decision Record.
pub mod Recording
use connect_governance.Prelude.{String, Option, [], ◌∷◌}
use connect_governance.Kernel.Types.{DecisionRequest, Decision, outcome_value}
use connect_governance.Kernel.Evidence.{Host}
use connect_governance.Kernel.Evaluate.{evaluate}
use connect_governance.Codec.{Codecs}
use connect_governance.Schema.{DecisionRecord}
use connect_governance.Store.{Database, Session, Row, Exec, pure, reads, flush, ◌>>=◌, ◌>>◌}

abbrev pub conformance_spec_version : String
conformance_spec_version = "1"

module _ {F : Type 0} (host : Host F) (codecs : Codecs F) (db : Database F) where
  unfoldable pub decision_row :
      (record_id : String)
      → DecisionRequest F
      → Decision
      → (recorded_at : String) → Option String
      → DecisionRecord
  unfolding outcome_value
  decision_row record_id request decision recorded_at work_request_id = record {
    id = record_id;
    transition_id = decision.transition_id;
    outcome = outcome_value decision.outcome;
    request_json = codecs.requests.encode request;
    decision_json = codecs.decisions.encode decision;
    kernel_version = decision.kernel_version;
    conformance_spec_version = conformance_spec_version;
    evaluated_at = decision.evaluated_at;
    recorded_at = recorded_at;
    correlation_id = decision.correlation_id;
    work_request_id = work_request_id;
    work_request_revision = request.current_state_revision;
  }

  unfoldable pub record_decision :
      (record_id : String)
      → DecisionRequest F
      → Decision
      → (recorded_at : String) → Option String
      → Exec db DecisionRecord
  record_decision record_id request decision recorded_at work_request_id = do
    let row = decision_row record_id request decision recorded_at work_request_id
    flush db (Row.decision_record row ∷ [])
    pure row

  unfoldable pub evaluate_and_record :
      (record_id : String)
      → DecisionRequest F
      → (recorded_at : String) → Option String
      → Exec db (Decision × DecisionRecord)
  evaluate_and_record record_id request recorded_at work_request_id = do
    decision ← reads (λ s. evaluate host request)
    row ← record_decision record_id request decision recorded_at work_request_id
    pure (decision, row)
