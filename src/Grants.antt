-- ===== src/Grants.antt =====
-- src/connect_governance/grants.py: from an Allowed Decision Record to a signed grant.
pub mod Issued
pub mod Authorized
use connect_governance.Prelude.{
  String, Bool, Option, none, some, List, [], ◌∷◌, not, ◌==◌, if◌then◌else◌, Error, Result, ok, err,
  ◌>>=◌ as ◌>>=ᵣ◌,
}
use connect_governance.Prelude.Int.{ℤ}
use connect_governance.Kernel.Json.{Fields}
use connect_governance.Kernel.Types.{Decision, outcome_value}
use connect_governance.Kernel.Evidence.{Host}
use connect_governance.Codec.{Codec, Codecs}
use connect_governance.Schema.{DecisionRecord, ExecutionGrantRecord}
use connect_governance.Store.{Database, Session, Row, Exec, pure, raise, reads, flush, ◌>>=◌, ◌>>◌}
use connect_governance.Signing.{sign_grant}
use connect_governance.Signing.Types.{RevocationState, GrantPayload, ExecutionGrant}
use connect_governance.Signing.Scheme.{Crypto}

-- The keyword arguments of `issue_grant`.
pub record GrantArguments (F : Type 0) : Type 0 where
  pub decision_record_id : String
  pub grant_id : String
  pub private_key_pem : String
  pub issuer_key_id : String
  pub work_request_id : String
  pub work_request_revision : Option String
  pub requesting_principal_id : String
  pub organization_id : String
  pub workspace_id : String
  pub provider_id : String
  pub permitted_operations : List String
  pub issued_at : String
  pub not_before : Option String
  pub not_after : Option String
  pub argument_constraints : Option (Fields F)
  pub data_classifications : List String
  pub budget_limit_usd : Option F
  pub delegation_depth : ℤ
  pub delegation_max_depth : Option ℤ
  pub correlation_id : Option String

abbrev pub or_no_fields : {F : Type 0} → Option (Fields F) → Fields F
or_no_fields none = Fields.end
or_no_fields (some fields) = fields

-- a if a is not None else b
abbrev pub or_else : Option String → Option String → Option String
or_else none b = b
or_else (some a) b = some a

abbrev pub grant_payload : {F : Type 0} → GrantArguments F → Decision → GrantPayload F
grant_payload a decision = record {
  grant_format_version = "1";
  grant_id = a.grant_id;
  decision_record_id = a.decision_record_id;
  work_request_id = a.work_request_id;
  work_request_revision = a.work_request_revision;
  requesting_principal_id = a.requesting_principal_id;
  organization_id = a.organization_id;
  workspace_id = a.workspace_id;
  provider_id = a.provider_id;
  permitted_operations = a.permitted_operations;
  argument_constraints = or_no_fields a.argument_constraints;
  data_classifications = a.data_classifications;
  budget_limit_usd = a.budget_limit_usd;
  delegation_depth = a.delegation_depth;
  delegation_max_depth = a.delegation_max_depth;
  policy_versions = decision.policy_versions;
  kernel_version = decision.kernel_version;
  not_before = a.not_before;
  not_after = a.not_after;
  revocation_state = RevocationState.active;
  issued_at = a.issued_at;
  issuer_key_id = a.issuer_key_id;
  correlation_id = or_else a.correlation_id decision.correlation_id;
}

module _ {F : Type 0} (host : Host F) (crypto : Crypto) (canonical : GrantPayload F → String)
    (codecs : Codecs F) (grants : Codec (ExecutionGrant F)) (db : Database F) where
  abbrev pub grant_row : GrantArguments F → ExecutionGrant F → ExecutionGrantRecord
  grant_row a grant = record {
    id = a.grant_id;
    decision_record_id = a.decision_record_id;
    grant_json = grants.encode grant;
    issuer_key_id = a.issuer_key_id;
    provider_id = a.provider_id;
    work_request_id = a.work_request_id;
    issued_at = a.issued_at;
    not_before = a.not_before;
    not_after = a.not_after;
    correlation_id = grant.payload.correlation_id;
  }

  -- session.get(DecisionRecord, decision_record_id), or GrantIssuanceRefused
  unfoldable pub find_decision : Session db → String → Result DecisionRecord
  find_decision s decision_record_id =
      elim (db.decision_records.get s.decision_records decision_record_id) [
        | none ↦ err Error.grant_issuance_refused
        | some row ↦ ok row
      ]

  unfoldable pub sign_if_allowed : GrantArguments F → Decision → Result (ExecutionGrant F)
  unfolding outcome_value
  sign_if_allowed a decision =
      if outcome_value decision.outcome == "Allowed"
      then sign_grant host crypto canonical (grant_payload a decision) a.private_key_pem
      else err Error.grant_issuance_refused

  -- What precedes the write: it only reads.
  unfoldable pub prepare_grant : GrantArguments F → Session db → Result (ExecutionGrant F)
  prepare_grant a s = find_decision s a.decision_record_id >>=ᵣ λ row.
      codecs.decisions.decode row.decision_json >>=ᵣ λ decision. sign_if_allowed a decision

  unfoldable pub issue_grant : GrantArguments F → Exec db (ExecutionGrant F)
  issue_grant a = do
    grant ← reads (prepare_grant a)
    flush db (Row.execution_grant_record (grant_row a grant) ∷ [])
    pure grant

  -- session.get(ExecutionGrantRecord, grant_id), or KeyError
  unfoldable pub find_grant : Session db → String → Result ExecutionGrantRecord
  find_grant s grant_id = elim (db.execution_grant_records.get s.execution_grant_records grant_id) [
    | none ↦ err Error.key_error
    | some row ↦ ok row
  ]

  unfoldable pub load_grant : Session db → String → Result (ExecutionGrant F)
  load_grant s grant_id = find_grant s grant_id >>=ᵣ λ row. grants.decode row.grant_json
