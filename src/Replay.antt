-- ===== src/Replay.antt =====
-- src/connect_governance/decisions.py: stored Decision Records are read back and re-evaluated.
pub mod Match
pub mod Sweep
use connect_governance.Prelude.{
  String, Bool, List, [], ◌∷◌, map, ◌==◌, none, some, Error, Result, ok, err, ◌>>=◌,
}
use connect_governance.Kernel.Json.{Json}
use connect_governance.Kernel.Types.{DecisionRequest, Decision}
use connect_governance.Kernel.Evidence.{Host}
use connect_governance.Kernel.Evaluate.{evaluate}
use connect_governance.Codec.{Codecs}
use connect_governance.Schema.{DecisionRecord}
use connect_governance.Store.{Database, Session}

pub record ReplayResult (F : Type 0) : Type 0 where
  pub record_id : String
  pub matched : Bool
  pub stored_decision : Json F
  pub replayed_decision : Json F

module _ {F : Type 0} (host : Host F) (codecs : Codecs F) (db : Database F) where
  -- session.get(DecisionRecord, record_id), or KeyError
  unfoldable pub find_record : Session db → String → Result DecisionRecord
  find_record s record_id = elim (db.decision_records.get s.decision_records record_id) [
    | none ↦ err Error.key_error
    | some row ↦ ok row
  ]

  unfoldable pub replay : Session db → String → Result (ReplayResult F)
  replay s record_id = do
    row ← find_record s record_id
    request ← codecs.requests.decode row.request_json
    replayed ← evaluate host request
    stored_decision ← codecs.load_document row.decision_json
    replayed_decision ← codecs.load_document (codecs.decisions.encode replayed)
    ok (record {
      record_id = record_id;
      matched = codecs.decisions.encode replayed == row.decision_json;
      stored_decision = stored_decision;
      replayed_decision = replayed_decision;
    })

  unfoldable pub replay_each : Session db → List String → Result (List (ReplayResult F))
  replay_each s [] = ok []
  replay_each s (i ∷ ids) = do r ← replay s i; rest ← replay_each s ids; ok (r ∷ rest)

  unfoldable pub replay_all : Session db → Result (List (ReplayResult F))
  replay_all s = replay_each s (map (λ r. r.id) (db.decision_records.scan s.decision_records))

  unfoldable pub load_record : Session db → String → Result (DecisionRequest F × Decision)
  load_record s record_id = do
    row ← find_record s record_id
    request ← codecs.requests.decode row.request_json
    decision ← codecs.decisions.decode row.decision_json
    ok (request, decision)
