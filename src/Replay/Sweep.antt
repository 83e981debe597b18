-- ===== src/Replay/Sweep.antt =====
-- The integrity sweep over a store that `evaluate_and_record` wrote.
use connect_governance.Prelude.{
  All-weaken, String, ◌≡◌, subst, true, Option, List, [], ◌∷◌, map, Merge, All, Result, ok,
}
use connect_governance.Kernel.Types.{DecisionRequest, Decision}
use connect_governance.Kernel.Evidence.{Host}
use connect_governance.Kernel.Evaluate.{evaluate}
use connect_governance.Codec.{Codecs}
use connect_governance.Schema.{DecisionRecord}
use connect_governance.Store.{Database, Session, Row}
use connect_governance.Store.Growth.{
  Grown, same, more, Grown_of_add_all, HasRecord, HasRecord_of_add, Grown-HasRecord,
  record_inserted,
}
use connect_governance.Decisions.{decision_row, evaluate_and_record}
use connect_governance.Decisions.Recording.{
  Recording, raised, refused, recorded, evaluate_and_record_cases,
}
use connect_governance.Replay.{ReplayResult, replay_all}
use connect_governance.Replay.Match.{IsFaithful, decision_row-IsFaithful, replay_each-faithful}

module _ {A : Type 0} (P : A → Type 0) where
  All-Merge : {xs ys zs : List A} → Merge xs ys zs → All P xs → All P ys → All P zs
  All-Merge Merge.done a b = tt
  All-Merge (Merge.left m) (p, a) b = (p, All-Merge m a b)
  All-Merge (Merge.right m) a (p, b) = (p, All-Merge m a b)

module _ {F : Type 0} (host : Host F) (codecs : Codecs F) (db : Database F) where
  -- Every Decision Record is found under its id, and is what `evaluate` makes of its request.
  pub record IsIntact (s : Session db) : Type 0 where
    pub here : All (λ row. HasRecord db row.id row s) (db.decision_records.scan s.decision_records)
    pub faithful : All (IsFaithful host codecs db) (db.decision_records.scan s.decision_records)

  IsIntact-Recording :
      (k : String) (request : DecisionRequest F) (recorded_at : String)
      (work_request_id : Option String) (s : Session db)
      (r : Result (Decision × DecisionRecord) × Session db)
      → Recording host codecs db k request recorded_at work_request_id s r
      → codecs.requests.Holds request
      → ((d : Decision) → evaluate host request ≡ ok d → codecs.decisions.Holds d)
      → IsIntact s
      → IsIntact r.1
  unfolding decision_row
  IsIntact-Recording k request recorded_at work_request_id s _ (raised e) q d i = i
  IsIntact-Recording k request recorded_at work_request_id s _ (refused e a) q d i = i
  IsIntact-Recording k request recorded_at work_request_id s _ (recorded {d = d} {t = t} e added)
        held held' i =
      let row = decision_row host codecs db k request d recorded_at work_request_id in
      let grown : Grown db s t =
        subst (λ x. Grown db s x) (Grown_of_add_all db (Row.decision_record row ∷ []) s added)
          (more (Row.decision_record row ∷ []) same) in
      let (admitted, merged) =
        db.decision_records.insert-some row s.decision_records (record_inserted db row s added) in
      record {
        here =
            All-Merge _ merged (HasRecord_of_add db row s added, tt)
              (All-weaken _ _ _ (λ x h. Grown-HasRecord db x.id x grown h) i.here);
        faithful =
            All-Merge _ merged
              (
                decision_row-IsFaithful host codecs db k request d recorded_at work_request_id held
                    (held' d e) e,
                tt,
              )
              i.faithful;
      }

  -- The sessions that calls of `evaluate_and_record` lead to, whatever becomes of each call, with
  -- requests and decisions that texts can hold.
  pub data Recordings (s : Session db) : Session db → Type 0 where
    no_call : Recordings s s
    call :
        {t : Session db} (k : String) (request : DecisionRequest F) (recorded_at : String)
        (work_request_id : Option String)
        → codecs.requests.Holds request
        → ((d : Decision) → evaluate host request ≡ ok d → codecs.decisions.Holds d)
        → Recordings s t
        → Recordings s
            (evaluate_and_record host codecs db k request recorded_at work_request_id t).1

  IsIntact-Recordings : {s t : Session db} → Recordings s t → IsIntact s → IsIntact t
  IsIntact-Recordings no_call i = i
  IsIntact-Recordings (call {t = t} k request recorded_at work_request_id held held' w) i =
      IsIntact-Recording k request recorded_at work_request_id t _
        (evaluate_and_record_cases host codecs db k request recorded_at work_request_id t) held
        held' (IsIntact-Recordings w i)

  -- From a store without Decision Records, after any calls of `evaluate_and_record`, successful or
  -- not, with requests and decisions that texts can hold, the sweep returns one result for each
  -- record, in the order of the scan, and all match.
  pub replay_all-Recordings :
      (s t : Session db)
      → db.decision_records.scan s.decision_records ≡ []
      → Recordings s t
      → (rs : List (ReplayResult F)) × (replay_all host codecs db t ≡ ok rs)
        × (map (λ r. r.record_id) rs
            ≡ map (λ r. r.id) (db.decision_records.scan t.decision_records))
        × All (λ r. r.matched ≡ true) rs
  unfolding replay_all
  replay_all-Recordings s t none_yet w =
      let empty : IsIntact s = record { here = rw none_yet tt; faithful = rw none_yet tt } in
      let i = IsIntact-Recordings w empty in
      replay_each-faithful host codecs db t (db.decision_records.scan t.decision_records) i.here
        i.faithful
