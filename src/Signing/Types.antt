-- ===== src/Signing/Types.antt =====
-- The artifacts of src/connect_governance_grants/signing.py.
use connect_governance.Prelude.{String, Bool, Option, List}
use connect_governance.Prelude.Int.{ℤ}
use connect_governance.Kernel.Json.{Fields}

-- Literal["active"]
pub data RevocationState : Type 0 where
  active : RevocationState

pub record GrantPayload (F : Type 0) : Type 0 where
  pub grant_format_version : String
  pub grant_id : String
  pub decision_record_id : String
  pub work_request_id : String
  pub work_request_revision : Option String
  pub requesting_principal_id : String
  pub organization_id : String
  pub workspace_id : String
  pub provider_id : String
  pub permitted_operations : List String
  pub argument_constraints : Fields F
  pub data_classifications : List String
  pub budget_limit_usd : Option F
  pub delegation_depth : ℤ
  pub delegation_max_depth : Option ℤ
  pub policy_versions : List String
  pub kernel_version : String
  pub not_before : Option String
  pub not_after : Option String
  pub revocation_state : RevocationState
  pub issued_at : String
  pub issuer_key_id : String
  pub correlation_id : Option String

pub record ExecutionGrant (F : Type 0) : Type 0 where
  pub payload : GrantPayload F
  pub signature_scheme : String
  pub signature : String

pub record VerificationResult : Type 0 where
  pub valid : Bool
  pub signature_valid : Bool
  pub within_validity_window : Bool
  pub failure_codes : List String
  pub issuer_key_id : String
