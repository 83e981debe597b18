-- ===== src/Samples/CoveredRuns.antt =====
-- What a signature covers: a payload with its constraints in two orders, and a revocation list.
use connect_governance.Prelude.{Bool, true, ◌≡◌, refl, none, some, [], ◌∷◌}
use connect_governance.Prelude.Int.{pos}
use connect_governance.Kernel.Json.{Json, Fields}
use connect_governance.Canonical.Dumps.{canonical_json}
use connect_governance.Canonical.Documents.{entries_of}
use connect_governance.Signing.Types.{GrantPayload, RevocationState}
use connect_governance.Signing.Covered.{signed_text, SamePayload, signed_text-SamePayload}
use connect_governance.Revocations.Types.{RevocationPayload}
use connect_governance.Revocations.Covered.{list_text_injective}
use connect_governance.Samples.CanonicalRuns.{sample_floats}

abbrev constrained : Fields Bool → GrantPayload Bool
constrained constraints = record {
  grant_format_version = "1";
  grant_id = "grant-1";
  decision_record_id = "rec-1";
  work_request_id = "wr-1";
  work_request_revision = some "wr-1/1";
  requesting_principal_id = "alice";
  organization_id = "org-1";
  workspace_id = "ws-1";
  provider_id = "provider-1";
  permitted_operations = "read" ∷ "write" ∷ [];
  argument_constraints = constraints;
  data_classifications = [];
  budget_limit_usd = some true;
  delegation_depth = pos 0;
  delegation_max_depth = some (pos 2);
  policy_versions = "policy-1@3" ∷ [];
  kernel_version = "0.1.0";
  not_before = some "100Z";
  not_after = none;
  revocation_state = RevocationState.active;
  issued_at = "100Z";
  issuer_key_id = "ed25519:00";
  correlation_id = none;
}

abbrev path_first : GrantPayload Bool
path_first =
    constrained (Fields.field "path" (Json.str "/tmp") (Fields.field "mode" Json.null Fields.end))

abbrev mode_first : GrantPayload Bool
mode_first =
    constrained (Fields.field "mode" Json.null (Fields.field "path" (Json.str "/tmp") Fields.end))

same_text : signed_text sample_floats path_first ≡ signed_text sample_floats mode_first
unfolding signed_text canonical_json entries_of
same_text = refl

signed_text-SamePayload_example : SamePayload path_first mode_first
signed_text-SamePayload_example =
    signed_text-SamePayload sample_floats path_first mode_first same_text

abbrev one_revoked : RevocationPayload
one_revoked = record {
  revocation_list_format_version = "1";
  issuer_key_id = "ed25519:00";
  issued_at = "120Z";
  revoked_grant_ids = "grant-1" ∷ [];
  supersedes = some "list-0";
  list_id = "list-1";
  signature_scheme = "Ed25519";
}

list_text_injective_example : one_revoked ≡ one_revoked
list_text_injective_example = list_text_injective sample_floats one_revoked one_revoked refl
