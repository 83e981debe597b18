-- ===== src/Replay/Match.antt =====
-- Stored Decisions replay to themselves.
use connect_governance.Prelude.{
  String, ◌≡◌, refl, ◌∙◌, ap, true, Option, List, [], ◌∷◌, map, eq_refl, ok, All,
}
use connect_governance.Kernel.Types.{DecisionRequest, Decision}
use connect_governance.Kernel.Evidence.{Host}
use connect_governance.Kernel.Evaluate.{evaluate}
use connect_governance.Codec.{Codecs}
use connect_governance.Schema.{DecisionRecord}
use connect_governance.Store.{Database, Session}
use connect_governance.Decisions.Recording.{evaluate_and_record-eq-ok}
use connect_governance.Store.Growth.{Grown, HasRecord, HasRecord_of_add, Grown-HasRecord}
use connect_governance.Decisions.{decision_row, evaluate_and_record}
use connect_governance.Replay.{ReplayResult, find_record, replay, replay_each, load_record}

module _ {F : Type 0} (host : Host F) (codecs : Codecs F) (db : Database F) where
  -- The row is what `evaluate` and the codecs make of a request.
  pub record IsFaithful (row : DecisionRecord) : Type 0 where
    pub request : DecisionRequest F
    pub decision : Decision
    pub request_held : codecs.requests.Holds request
    pub decision_held : codecs.decisions.Holds decision
    pub evaluated : evaluate host request ≡ ok decision
    pub request_text : row.request_json ≡ codecs.requests.encode request
    pub decision_text : row.decision_json ≡ codecs.decisions.encode decision

  -- A faithful row that the session has replays with a match.
  replay-faithful :
      (s : Session db) (k : String) (row : DecisionRecord)
      → HasRecord db k row s
      → IsFaithful row
      → (r : ReplayResult F) × (replay host codecs db s k ≡ ok r)
        × (r.record_id ≡ k)
        × (r.matched ≡ true)
        × (codecs.load_document row.decision_json ≡ ok r.stored_decision)
        × (r.replayed_decision ≡ r.stored_decision)
  unfolding replay find_record
  replay-faithful s k row here faithful =
      let (j, read) = codecs.load-decision faithful.decision faithful.decision_held in
      (
        record { record_id = k; matched = true; stored_decision = j; replayed_decision = j },
        rw (
          here,
          find_record,
          faithful.request_text,
          codecs.requests.decode-encode faithful.request faithful.request_held,
          faithful.evaluated,
          faithful.decision_text,
          read,
          eq_refl (codecs.decisions.encode faithful.decision),
        ),
        refl,
        refl,
        rw faithful.decision_text read,
        refl,
      )

  pub decision_row-IsFaithful :
      (k : String) (request : DecisionRequest F) (decision : Decision) (recorded_at : String)
      (work_request_id : Option String)
      → codecs.requests.Holds request
      → codecs.decisions.Holds decision
      → evaluate host request ≡ ok decision
      → IsFaithful (decision_row host codecs db k request decision recorded_at work_request_id)
  unfolding decision_row
  decision_row-IsFaithful k request decision recorded_at work_request_id r d e = record {
    request = request;
    decision = decision;
    request_held = r;
    decision_held = d;
    evaluated = e;
    request_text = refl;
    decision_text = refl;
  }

  load_record-here :
      (s : Session db) (k : String) (row : DecisionRecord) (request : DecisionRequest F)
      (d : Decision)
      → HasRecord db k row s
      → codecs.requests.Holds request
      → codecs.decisions.Holds d
      → row.request_json ≡ codecs.requests.encode request
      → row.decision_json ≡ codecs.decisions.encode d
      → load_record host codecs db s k ≡ ok (request, d)
  unfolding load_record find_record
  load_record-here s k row request d here held held' r e = rw (
    here,
    find_record,
    r,
    codecs.requests.decode-encode request held,
    e,
    codecs.decisions.decode-encode d held',
  )

  -- What `evaluate_and_record` returned and stored, if texts can hold it, is there for good: in every session that flushes lead to
  -- `load_record` gives back the request and the decision, and `replay` matches, with the decision
  -- that was stored as the replayed one.
  pub replay-evaluate_and_record :
      (k : String) (request : DecisionRequest F) (recorded_at : String)
      (work_request_id : Option String) (s : Session db) {t u : Session db} {d : Decision}
      {row : DecisionRecord}
      → evaluate_and_record host codecs db k request recorded_at work_request_id s
        ≡ (ok (d, row), t)
      → codecs.requests.Holds request
      → codecs.decisions.Holds d
      → Grown db t u
      → (load_record host codecs db u k ≡ ok (request, d))
        × (r : ReplayResult F) × (replay host codecs db u k ≡ ok r)
        × (r.matched ≡ true)
        × (codecs.load_document row.decision_json ≡ ok r.stored_decision)
        × (r.replayed_decision ≡ r.stored_decision)
  unfolding decision_row
  replay-evaluate_and_record k request recorded_at work_request_id s {t} {u} {d} {row} h held held'
        g =
      let (e, same, added) =
        evaluate_and_record-eq-ok host codecs db k request recorded_at work_request_id s h in
      let made = decision_row host codecs db k request d recorded_at work_request_id in
      let here = Grown-HasRecord db k made g (HasRecord_of_add db made s added) in
      let faithful = decision_row-IsFaithful k request d recorded_at work_request_id held held' e in
      let (r, ran, named, matched, stored, replayed) = replay-faithful u k made here faithful in
      (
        load_record-here u k made request d here held held' refl refl,
        r,
        ran,
        matched,
        ap (λ (x : DecisionRecord). codecs.load_document x.decision_json) same ∙ stored,
        replayed,
      )

  pub replay_each-faithful :
      (s : Session db) (rows : List DecisionRecord)
      → All (λ row. HasRecord db row.id row s) rows
      → All IsFaithful rows
      → (rs : List (ReplayResult F)) × (replay_each host codecs db s (map (λ r. r.id) rows) ≡ ok rs)
        × (map (λ r. r.record_id) rs ≡ map (λ r. r.id) rows)
        × All (λ r. r.matched ≡ true) rs
  unfolding replay_each
  replay_each-faithful s [] here faithful = ([], refl, refl, tt)
  replay_each-faithful s (row ∷ rows) here faithful =
      let (r, ran, named, matched, stored, replayed) =
        replay-faithful s row.id row here.0 faithful.0 in
      let (rs, all_ran, all_named, all_matched) = replay_each-faithful s rows here.1 faithful.1 in
      (r ∷ rs, rw (ran, all_ran), rw (named, all_named), (matched, all_matched))
