-- ===== src/Samples/ResolutionRuns.antt =====
-- A Work Request with two revisions: a transition that still expects the first one is denied, by the
-- rows.
use connect_governance.Prelude.{
  ℕ, ◌≡◌, refl, ap, sym, ◌∙◌, true, none, some, String, List, [], ◌∷◌, ok, Any, inl, inr,
}
use connect_governance.Kernel.Types.{Transition, DecisionRequest, Decision}
use connect_governance.Kernel.Timestamp.{
  is_space, lstrip, strip, normalize_zulu, require_offset, parse_rfc3339,
}
use connect_governance.Kernel.Evaluate.{evaluate}
use connect_governance.Kernel.Evaluate.Demands.{IsApproval}
use connect_governance.Kernel.Evaluate.Total.{evaluate_total}
use connect_governance.Codec.{Codec}
use connect_governance.Schema.{WorkRequestRevision}
use connect_governance.Store.{Session, add_all, add, flush}
use connect_governance.Genesis.{
  founding_authorities, genesis_completed, initialize_deployment, state_is_empty,
}
use connect_governance.Genesis.Founding.{founding_evidence}
use connect_governance.Resolution.{
  Facts, agent_is_active, principal_is_active, evidence_of, evidence_of_all,
  resolve_authority_evidence, latest_of, current_state_revision, build_decision_request,
}
use connect_governance.Resolution.Outcome.{ThreeWay}
use connect_governance.Resolution.Revisions.{IsNumbered}
use connect_governance.Resolution.Rows.{RowsAuthorize, resolved_by_rows}
use connect_governance.Samples.{sample_host}
use connect_governance.Samples.Store.{sample_db, no_rows, codec_for}
use connect_governance.Samples.Requests.{sample_genesis, sample_transition}

abbrev keys : Codec (List String)
keys = codec_for "keys" founding_authorities

abbrev first_revision : WorkRequestRevision ℕ
first_revision = record {
  id = "rev-1";
  work_request_id = "wr-1";
  revision_number = 1;
  state_revision = "state-1";
  governance_json = "{}";
  granted_authorities = "[]";
  budget_ceiling_usd = none;
  supersedes_revision_id = none;
  recorded_at = "110Z";
  provenance = "intake";
}

abbrev second_revision : WorkRequestRevision ℕ
second_revision = record first_revision {
  id = "rev-2";
  revision_number = 2;
  state_revision = "state-2";
}

abbrev revised : Session sample_db
revised = record (initialize_deployment sample_db keys sample_genesis no_rows).1 {
  work_request_revisions = first_revision ∷ second_revision ∷ [];
}

revised-IsNumbered :
    IsNumbered (sample_db.work_request_revisions.scan revised.work_request_revisions)
revised-IsNumbered q r (inl a) (inl b) named number = sym a ∙ b
revised-IsNumbered q r (inl a) (inr (inl b)) named number =
    let clash : ◌≡◌ {A = ℕ} 1 2 =
      ap (λ (x : WorkRequestRevision ℕ). x.revision_number) a
      ∙ number
      ∙ ap (λ (x : WorkRequestRevision ℕ). x.revision_number) (sym b) in
    cc clash
revised-IsNumbered q r (inr (inl a)) (inl b) named number =
    let clash : ◌≡◌ {A = ℕ} 2 1 =
      ap (λ (x : WorkRequestRevision ℕ). x.revision_number) a
      ∙ number
      ∙ ap (λ (x : WorkRequestRevision ℕ). x.revision_number) (sym b) in
    cc clash
revised-IsNumbered q r (inr (inl a)) (inr (inl b)) named number = sym a ∙ b
revised-IsNumbered q r (inr (inr a)) b named number = absurd a
revised-IsNumbered q r (inl a) (inr (inr b)) named number = absurd b
revised-IsNumbered q r (inr (inl a)) (inr (inr b)) named number = absurd b

abbrev stale_transition : Transition ℕ
stale_transition = record sample_transition { expected_state_revision = some "state-1" }

abbrev facts : Facts ℕ
facts = record {
  work_request_id = some "wr-1";
  policy_versions = [];
  constraints = [];
  classifications = none;
  cumulative_state = none;
  delegation = none;
  correlation_id = none;
}

abbrev stale_request : DecisionRequest ℕ
stale_request = record {
  transition = stale_transition;
  principal_active = true;
  required_authority = "authority.grant";
  current_state_revision = some "state-2";
  authority_evidence = founding_evidence sample_genesis ∷ [];
  policy_versions = [];
  constraints = [];
  classifications = [];
  cumulative_state = [];
  delegation = none;
  evaluation_time = "120Z";
  correlation_id = none;
}

builds :
    build_decision_request sample_db keys revised stale_transition "authority.grant" "120Z" facts
    ≡ ok stale_request
unfolding initialize_deployment genesis_completed state_is_empty flush add_all add agent_is_active
    principal_is_active evidence_of evidence_of_all resolve_authority_evidence latest_of
    current_state_revision build_decision_request
builds = refl

decided : (d : Decision) × (evaluate sample_host stale_request ≡ ok d)
unfolding parse_rfc3339 is_space lstrip strip normalize_zulu require_offset
decided = evaluate_total sample_host stale_request (120, refl) ((tt, (100, refl), tt), tt)

resolved_by_rows_example :
    ThreeWay decided.0.outcome
      (RowsAuthorize sample_host sample_db keys revised stale_transition "authority.grant" "120Z"
        facts stale_request)
      (Any IsApproval facts.constraints)
resolved_by_rows_example =
    resolved_by_rows sample_host sample_db keys revised stale_transition "authority.grant" "120Z"
      facts revised-IsNumbered builds decided.1
