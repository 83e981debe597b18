-- ===== src/Revocations/Types.antt =====
-- The signed artifact of src/connect_governance/revocations.py, and the outcome of its check.
use connect_governance.Prelude.{String, Bool, Option, List}

pub record RevocationList : Type 0 where
  pub revocation_list_format_version : String
  pub issuer_key_id : String
  pub issued_at : String
  pub revoked_grant_ids : List String
  pub supersedes : Option String
  pub list_id : String
  pub signature_scheme : String
  pub signature : String

-- The dict of every field but the signature.
pub record RevocationPayload : Type 0 where
  pub revocation_list_format_version : String
  pub issuer_key_id : String
  pub issued_at : String
  pub revoked_grant_ids : List String
  pub supersedes : Option String
  pub list_id : String
  pub signature_scheme : String

pub record RevocationListVerification : Type 0 where
  pub valid : Bool
  pub signature_valid : Bool
  pub failure_codes : List String
  pub issuer_key_id : String
  pub list_id : String
