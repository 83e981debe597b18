-- ===== src/Samples/GrantRuns.antt =====
-- An allowed Decision, the grant issued from it, and the trail that leads to it.
use connect_governance.Prelude.{ℕ, ◌≡◌, ◌↔◌, refl, true, Any, none, some, [], ◌∷◌, ok}
use connect_governance.Prelude.Int.{pos}
use connect_governance.Kernel.Types.{
  Outcome, ReasonCode, outcome_value, reason_value, Transition, DecisionRequest, Decision,
}
use connect_governance.Kernel.Timestamp.{
  is_space, lstrip, strip, normalize_zulu, require_offset, parse_rfc3339,
}
use connect_governance.Kernel.Evidence.{elem_code}
use connect_governance.Kernel.Authority.{
  bound_test, authority_is_effective, assess, authority, note_candidate, conclude_authority,
  ineffective_codes,
}
use connect_governance.Kernel.Evaluate.{
  structural, principal, delegation, delegation_checks, constrain, constrain_all, conclude,
  evaluate, approval, outcome_of, final_reasons, kernel_version,
}
use connect_governance.Kernel.Evaluate.Demands.{IsApproval}
use connect_governance.Codec.{Codec, Codecs}
use connect_governance.Schema.{DecisionRecord}
use connect_governance.Store.{Session, add, add_all, flush}
use connect_governance.Store.Growth.{same}
use connect_governance.Store.Grants.{HasGrantRecord}
use connect_governance.Resolution.{
  agent_is_active, evidence_of, evidence_of_all, principal_is_active, resolve_authority_evidence,
  build_decision_request,
}
use connect_governance.Resolution.Outcome.{IsAuthorized}
use connect_governance.Genesis.Founding.{no_facts}
use connect_governance.Decisions.{decision_row, record_decision, evaluate_and_record}
use connect_governance.Decisions.Recording.{row_of}
use connect_governance.Signing.{utf8, public_key_id, signing_key, sign_grant, verify_grant}
use connect_governance.Base64.{
  nth_char, symbol, urlsafe_b64encode, drop_padding, rstrip_padding, b64e,
}
use connect_governance.Signing.Types.{ExecutionGrant, VerificationResult}
use connect_governance.Signing.Verify.{IsWithin}
use connect_governance.Grants.{
  GrantArguments, grant_payload, grant_row, find_decision, sign_if_allowed, prepare_grant,
  issue_grant, load_grant,
}
use connect_governance.Grants.Authorized.{issued_grant-IsAuthorized, issued_grant_verifies}
use connect_governance.Queries.{
  grants_for_work_request, grants_by_decision_record, records_for_correlation,
}
use connect_governance.Queries.Trail.{IsIn, Linked, issued_grant_traversable}
use connect_governance.Samples.{sample_host}
use connect_governance.Samples.Store.{sample_db, sample_codecs, codec_for}
use connect_governance.Samples.Requests.{sample_transition, sample_request}
use connect_governance.Samples.ProviderRuns.{operated}
use connect_governance.Samples.Keys.{toy_crypto}
use connect_governance.Samples.SigningRuns.{sample_canonical, now_parsed, starts, ends}

abbrev allowed_decision : Decision
allowed_decision = record {
  outcome = Outcome.allowed;
  reason_codes = ReasonCode.permitted ∷ [];
  transition_id = "t-1";
  kernel_version = kernel_version;
  evaluated_at = "120Z";
  resolved_authorities = "auth-9" ∷ [];
  policy_versions = [];
  satisfied_conditions =
      "structural.expected_revision_matches" ∷ "principal.active"
      ∷ "authority.explicit_and_effective" ∷ [];
  failed_conditions = [];
  required_approvals = [];
  correlation_id = none;
}

abbrev codecs : Codecs ℕ
codecs = record (sample_codecs sample_request allowed_decision) {
  keys = codec_for "keys" ("provider.list" ∷ "provider.activate" ∷ []);
}

abbrev transition : Transition ℕ
transition = record sample_transition { proposed_by_principal_id = "olga" }

abbrev request : DecisionRequest ℕ
request = record {
  transition = transition;
  principal_active = true;
  required_authority = "provider.list";
  current_state_revision = none;
  authority_evidence =
      record {
        relationship_id = "auth-9";
        relationship_type = "Grant";
        principal_id = "olga";
        target_id = "org-1";
        granted_authorities = "provider.list" ∷ "provider.activate" ∷ [];
        effective_from = some "100Z";
        effective_until = some "200Z";
        revoked_at = none;
      }
      ∷ [];
  policy_versions = [];
  constraints = [];
  classifications = [];
  cumulative_state = [];
  delegation = none;
  evaluation_time = "120Z";
  correlation_id = none;
}

builds :
    build_decision_request sample_db codecs.keys operated transition "provider.list" "120Z" no_facts
    ≡ ok request
unfolding build_decision_request agent_is_active evidence_of evidence_of_all principal_is_active
    resolve_authority_evidence
builds = refl

abbrev row : DecisionRecord
row = row_of sample_host codecs sample_db "rec-1" request "120Z" none operated allowed_decision

abbrev decided : Session sample_db
decided = record operated { decision_records = row ∷ [] }

decides :
    evaluate_and_record sample_host codecs sample_db "rec-1" request "120Z" none operated
    ≡ (ok (allowed_decision, row), decided)
unfolding evaluate structural principal authority assess bound_test authority_is_effective
    delegation delegation_checks constrain constrain_all approval conclude outcome_of final_reasons
    note_candidate conclude_authority elem_code outcome_value reason_value ineffective_codes
    parse_rfc3339 is_space lstrip strip normalize_zulu require_offset add add_all flush decision_row
    record_decision evaluate_and_record
decides = refl

abbrev arguments : GrantArguments ℕ
arguments = record {
  decision_record_id = "rec-1";
  grant_id = "grant-1";
  private_key_pem = "private";
  issuer_key_id = "ed25519:00";
  work_request_id = "wr-1";
  work_request_revision = none;
  requesting_principal_id = "olga";
  organization_id = "org-1";
  workspace_id = "ws-1";
  provider_id = "provider-1";
  permitted_operations = "read" ∷ [];
  issued_at = "120Z";
  not_before = some "110Z";
  not_after = some "130Z";
  argument_constraints = none;
  data_classifications = [];
  budget_limit_usd = some 500;
  delegation_depth = pos 0;
  delegation_max_depth = some (pos 1);
  correlation_id = some "corr-1";
}

abbrev grant : ExecutionGrant ℕ
grant = record {
  payload = grant_payload arguments allowed_decision;
  signature_scheme = "Ed25519";
  signature = "Bw";
}

abbrev grants : Codec (ExecutionGrant ℕ)
grants = codec_for "grant" grant

abbrev issued : Session sample_db
issued = record decided {
  execution_grant_records =
      grant_row sample_host toy_crypto sample_canonical codecs grants sample_db arguments grant
      ∷ [];
}

issues :
    issue_grant sample_host toy_crypto sample_canonical codecs grants sample_db arguments decided
    ≡ (ok grant, issued)
unfolding issue_grant prepare_grant find_decision sign_if_allowed outcome_value sign_grant
    signing_key public_key_id utf8 b64e urlsafe_b64encode rstrip_padding drop_padding symbol
    nth_char add add_all flush decision_row
issues = refl

issued_grant-IsAuthorized_example :
    IsAuthorized sample_host sample_db codecs.keys operated transition "provider.list" "120Z"
      no_facts request
    × (¬ Any (IsApproval {F = ℕ}) [])
    × (Outcome.allowed ≡ Outcome.allowed)
    × (grant.payload ≡ grant_payload arguments allowed_decision)
issued_grant-IsAuthorized_example =
    issued_grant-IsAuthorized sample_host toy_crypto sample_canonical codecs grants sample_db
      transition "provider.list" "rec-1" "120Z" none no_facts operated arguments builds decides refl
      same refl issues

issued_grant_verifies_example :
    HasGrantRecord sample_db "grant-1"
      (grant_row sample_host toy_crypto sample_canonical codecs grants sample_db arguments grant)
      issued
    × (load_grant sample_host toy_crypto sample_canonical codecs grants sample_db issued "grant-1"
        ≡ ok grant)
    × ((key : Unit {0}) × (toy_crypto.load_private "private" ≡ ok key)
        × (r : VerificationResult) × (verify_grant sample_host toy_crypto sample_canonical grant
              "public" "120Z"
              (some "ed25519:00")
            ≡ ok r)
        × (r.signature_valid ≡ true)
        × ((r.valid ≡ true) ↔ IsWithin sample_host toy_crypto sample_canonical 120 grant.payload))
issued_grant_verifies_example =
    issued_grant_verifies sample_host toy_crypto sample_canonical codecs grants sample_db arguments
      decided "120Z" issues refl same now_parsed starts ends

issued_grant_traversable_example :
    IsIn
      (grant_row sample_host toy_crypto sample_canonical codecs grants sample_db arguments grant)
      (grants_by_decision_record sample_db issued "rec-1")
    × IsIn
        (grant_row sample_host toy_crypto sample_canonical codecs grants sample_db arguments grant)
        (grants_for_work_request sample_db issued "wr-1")
    × IsIn
        (grant_row sample_host toy_crypto sample_canonical codecs grants sample_db arguments grant)
        (records_for_correlation sample_db issued "corr-1").1
    × Linked sample_db issued "rec-1" "wr-1" "corr-1"
issued_grant_traversable_example =
    issued_grant_traversable sample_host toy_crypto sample_canonical codecs grants sample_db
      arguments decided "corr-1" issues same refl
