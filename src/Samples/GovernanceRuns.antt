-- ===== src/Samples/GovernanceRuns.antt =====
-- A deployment from Genesis to its first Work Request, on tables that are lists.
use connect_governance.Prelude.{
  ℕ, String, ◌≡◌, refl, arith, All, map, true, none, some, List, [], Error, ok, err,
}
use connect_governance.Kernel.Json.{Fields}
use connect_governance.Kernel.Types.{Outcome, DecisionRequest, Decision}
use connect_governance.Kernel.Timestamp.{
  is_space, lstrip, strip, normalize_zulu, require_offset, parse_rfc3339,
}
use connect_governance.Kernel.Evaluate.{evaluate}
use connect_governance.Kernel.Evaluate.Demands.{Grants}
use connect_governance.Codec.{Codec, Codecs}
use connect_governance.Schema.{DecisionRecord}
use connect_governance.Store.{Session, transaction, add_all, add, flush}
use connect_governance.Store.Growth.{same, HasRecord}
use connect_governance.Genesis.{
  founding_authorities, genesis_result, genesis_completed, initialize_deployment, state_is_empty,
}
use connect_governance.Genesis.Once.{
  IsUnfounded, Rooted, initialize_deployment_cases, initialize_deployment_once,
}
use connect_governance.Genesis.Founding.{no_facts, founder_is_decided}
use connect_governance.Resolution.{build_decision_request}
use connect_governance.Decisions.{evaluate_and_record}
use connect_governance.Decisions.Recording.{row_of, evaluate_and_record_fresh}
use connect_governance.Replay.{ReplayResult, load_record, replay, replay_all}
use connect_governance.Replay.Match.{replay-evaluate_and_record}
use connect_governance.Replay.Sweep.{Recordings, no_call, call, replay_all-Recordings}
use connect_governance.WorkRequests.{Intake, create_work_request}
use connect_governance.WorkRequests.Authority.{Committed, create_work_request-Committed}
use connect_governance.Samples.{sample_host}
use connect_governance.Samples.Store.{sample_db, no_rows, sample_codecs, codec_for}
use connect_governance.Samples.Requests.{
  sample_genesis, sample_transition, sample_request, sample_decision,
}
use connect_governance.Samples.KernelRuns.{sample_evaluates}

abbrev codecs : Codecs ℕ
codecs = sample_codecs sample_request sample_decision

abbrev keys : Codec (List String)
keys = codec_for "keys" founding_authorities

-- The deployment after Genesis.
abbrev founded : Session sample_db
founded = (initialize_deployment sample_db keys sample_genesis no_rows).1

nothing_there : IsUnfounded sample_db no_rows
nothing_there = record {
  organizations = refl;
  workspaces = refl;
  persons = refl;
  agents = refl;
  authorities = refl;
  genesis = refl;
}

at_genesis : parse_rfc3339 sample_host.fromisoformat "100Z" ≡ ok 100
unfolding parse_rfc3339 is_space lstrip strip normalize_zulu require_offset
at_genesis = refl

afterwards : parse_rfc3339 sample_host.fromisoformat "120Z" ≡ ok 120
unfolding parse_rfc3339 is_space lstrip strip normalize_zulu require_offset
afterwards = refl

is_founded : genesis_completed sample_db founded ≡ true
unfolding initialize_deployment genesis_completed state_is_empty flush add_all add
is_founded = refl

initialize_deployment_cases_example :
    (IsUnfounded sample_db no_rows
      → (t : Session sample_db) × (initialize_deployment sample_db keys sample_genesis no_rows
          ≡ (ok (genesis_result sample_genesis), t))
        × Rooted sample_db keys sample_genesis no_rows t
        × (genesis_completed sample_db t ≡ true))
    × ((¬ IsUnfounded sample_db no_rows)
        → initialize_deployment sample_db keys sample_genesis no_rows
          ≡ (err Error.genesis_refused, no_rows))
initialize_deployment_cases_example =
    initialize_deployment_cases sample_db keys sample_genesis no_rows

initialize_deployment_once_example :
    (genesis_completed sample_db founded ≡ true)
    × (initialize_deployment sample_db keys sample_genesis founded
        ≡ (err Error.genesis_refused, founded))
initialize_deployment_once_example =
    initialize_deployment_once sample_db keys sample_genesis is_founded same

founder_is_decided_example :
    (t : Session sample_db) × (req : DecisionRequest ℕ) × (d : Decision) × (initialize_deployment
        sample_db keys sample_genesis no_rows
      ≡ (ok (genesis_result sample_genesis), t))
    × (build_decision_request sample_db keys t sample_transition "authority.grant" "120Z" no_facts
        ≡ ok req)
    × (evaluate sample_host req ≡ ok d)
    × (Grants founding_authorities "authority.grant" → d.outcome ≡ Outcome.allowed)
    × ((¬ Grants founding_authorities "authority.grant") → d.outcome ≡ Outcome.denied)
founder_is_decided_example =
    founder_is_decided sample_host sample_db keys sample_genesis no_rows sample_transition
      "authority.grant" "120Z" nothing_there refl refl at_genesis afterwards (omega arith)

abbrev sample_row : DecisionRecord
sample_row =
    row_of sample_host codecs sample_db "rec-1" sample_request "120Z" none founded sample_decision

no_record_yet : sample_db.decision_records.get founded.decision_records "rec-1" ≡ none
unfolding initialize_deployment genesis_completed state_is_empty flush add_all add
no_record_yet = refl

evaluate_and_record_fresh_test :
    (t : Session sample_db) × (evaluate_and_record sample_host codecs sample_db "rec-1"
        sample_request "120Z" none founded
      ≡ (ok (sample_decision, sample_row), t))
    × HasRecord sample_db "rec-1" sample_row t
evaluate_and_record_fresh_test =
    evaluate_and_record_fresh sample_host codecs sample_db "rec-1" sample_request "120Z" none
      founded sample_evaluates no_record_yet

-- The session with the first Decision Record, and the call that wrote it.
first_record :
    (t : Session sample_db) × (evaluate_and_record sample_host codecs sample_db "rec-1"
        sample_request "120Z" none founded
      ≡ (ok (sample_decision, sample_row), t))
    × HasRecord sample_db "rec-1" sample_row t
first_record =
    evaluate_and_record_fresh sample_host codecs sample_db "rec-1" sample_request "120Z" none
      founded sample_evaluates no_record_yet

replay-evaluate_and_record_example :
    (load_record sample_host codecs sample_db first_record.0 "rec-1"
      ≡ ok (sample_request, sample_decision))
    × (r : ReplayResult ℕ) × (replay sample_host codecs sample_db first_record.0 "rec-1" ≡ ok r)
    × (r.matched ≡ true)
    × (codecs.load_document sample_row.decision_json ≡ ok r.stored_decision)
    × (r.replayed_decision ≡ r.stored_decision)
replay-evaluate_and_record_example =
    replay-evaluate_and_record sample_host codecs sample_db "rec-1" sample_request "120Z" none
      founded first_record.1 refl refl same

same_decision :
    (d : Decision) → evaluate sample_host sample_request ≡ ok d → codecs.decisions.Holds d
same_decision d h = cc (h, sample_evaluates)

one_call :
    Recordings sample_host codecs sample_db founded
      (evaluate_and_record sample_host codecs sample_db "rec-1" sample_request "120Z" none
        founded).1
one_call = call "rec-1" sample_request "120Z" none refl same_decision no_call

no_records : sample_db.decision_records.scan founded.decision_records ≡ []
unfolding initialize_deployment genesis_completed state_is_empty flush add_all add
no_records = refl

replay_all-Recordings_example :
    (rs : List (ReplayResult ℕ)) × (replay_all sample_host codecs sample_db
        (evaluate_and_record sample_host codecs sample_db "rec-1" sample_request "120Z" none
          founded).1
      ≡ ok rs)
    × (map (λ r. r.record_id) rs
        ≡ map
            (λ r. r.id)
            (sample_db.decision_records.scan
              (evaluate_and_record sample_host codecs sample_db "rec-1" sample_request "120Z" none
                founded).1.decision_records))
    × All (λ r. r.matched ≡ true) rs
replay_all-Recordings_example =
    replay_all-Recordings sample_host codecs sample_db founded
      (evaluate_and_record sample_host codecs sample_db "rec-1" sample_request "120Z" none
        founded).1
      no_records one_call

-- The founder's request, as it is built and decided after Genesis.
founder_request :
    (t : Session sample_db) × (req : DecisionRequest ℕ) × (d : Decision) × (initialize_deployment
        sample_db keys sample_genesis no_rows
      ≡ (ok (genesis_result sample_genesis), t))
    × (build_decision_request sample_db keys t sample_transition "authority.grant" "120Z" no_facts
        ≡ ok req)
    × (evaluate sample_host req ≡ ok d)
    × (Grants founding_authorities "authority.grant" → d.outcome ≡ Outcome.allowed)
    × ((¬ Grants founding_authorities "authority.grant") → d.outcome ≡ Outcome.denied)
founder_request =
    founder_is_decided sample_host sample_db keys sample_genesis no_rows sample_transition
      "authority.grant" "120Z" nothing_there refl refl at_genesis afterwards (omega arith)

abbrev sample_intake : Intake ℕ
sample_intake = record {
  work_request_id = "wr-1";
  owner_organization_id = "org-1";
  workspace_id = "ws-1";
  created_by_principal_id = "alice";
  revision_id = "rev-1";
  state_revision = "state-1";
  governance = Fields.end;
  granted_authorities = [];
  budget_ceiling_usd = some 500;
  transition_id = "t-2";
  decision_record_id = "rec-2";
  recorded_at = "120Z";
  correlation_id = none;
}

create_work_request-Committed_example :
    Committed sample_host codecs sample_db sample_intake founded
      (transaction (create_work_request sample_host codecs sample_db sample_intake) founded)
create_work_request-Committed_example =
    create_work_request-Committed sample_host codecs sample_db sample_intake founded
