-- ===== src/Samples/SigningRuns.antt =====
-- Signatures and grants under the toy keys.
use connect_governance.Prelude.{
  ℕ, ◌+◌, String, ◌≡◌, ◌↔◌, refl, arith, true, false, none, some, List, [], ◌∷◌, Error, ok, err,
}
use Prim.Native.Nat.{◌*◌, ◌/◌}
use connect_governance.Prelude.Int.{pos}
use connect_governance.Kernel.Json.{Fields}
use connect_governance.Kernel.Timestamp.{
  is_space, lstrip, strip, normalize_zulu, require_offset, parse_rfc3339, codes,
}
use connect_governance.Kernel.Authority.{bound_test}
use connect_governance.Kernel.Evaluate.Total.{IsReadable}
use connect_governance.Base64.{
  length, nth_char, symbol, urlsafe_b64encode, drop_padding, rstrip_padding, b64e, symbol_value,
  a2b_base64, b64d,
}
use connect_governance.Base64.RoundTrip.{b64d-b64e, length-b64e}
use connect_governance.Signing.{
  utf8, public_key_id, signing_key, check_signature, signature_is_valid, sign_grant, verify_grant,
}
use connect_governance.Signing.Types.{
  RevocationState, GrantPayload, ExecutionGrant, VerificationResult,
}
use connect_governance.Signing.Verify.{IsNamed, IsWithin, IsGenuine, verify_grant-eq-ok}
use connect_governance.Signing.Genuine.{verify_grant-sign_grant}
use connect_governance.Signing.Returns.{verify_grant_total}
use connect_governance.Samples.{sample_host}
use connect_governance.Samples.Keys.{toy_crypto}

b64d-b64e_example : b64d (b64e (0 ∷ 255 ∷ 16 ∷ 131 ∷ [])) ≡ ok (0 ∷ 255 ∷ 16 ∷ 131 ∷ [])
b64d-b64e_example =
    b64d-b64e (0 ∷ 255 ∷ 16 ∷ 131 ∷ [])
      (omega arith, (omega arith, (omega arith, (omega arith, tt))))

-- The characters of the encoding, and a text whose length no encoding has.
encodes : b64e (0 ∷ 255 ∷ 16 ∷ 131 ∷ []) ≡ "AP8Qgw"
unfolding b64e urlsafe_b64encode rstrip_padding drop_padding symbol nth_char
encodes = refl

refuses : b64d "AP8Qg" ≡ err Error.value_error
unfolding b64d a2b_base64 symbol_value
refuses = refl

length-b64e_example : length (codes (b64e (0 ∷ 255 ∷ []))) ≡ (2 * 4 + 2) / 3
length-b64e_example = length-b64e (0 ∷ 255 ∷ []) (omega arith, (omega arith, tt))

abbrev pub sample_payload : GrantPayload ℕ
sample_payload = record {
  grant_format_version = "1";
  grant_id = "grant-1";
  decision_record_id = "rec-1";
  work_request_id = "wr-1";
  work_request_revision = none;
  requesting_principal_id = "olga";
  organization_id = "org-1";
  workspace_id = "ws-1";
  provider_id = "provider-1";
  permitted_operations = "read" ∷ [];
  argument_constraints = Fields.end;
  data_classifications = [];
  budget_limit_usd = some 500;
  delegation_depth = pos 0;
  delegation_max_depth = some (pos 1);
  policy_versions = [];
  kernel_version = "0.0.1";
  not_before = some "110Z";
  not_after = some "130Z";
  revocation_state = RevocationState.active;
  issued_at = "120Z";
  issuer_key_id = "ed25519:00";
  correlation_id = none;
}

-- The grant's id in place of the canonical form.
abbrev pub sample_canonical : GrantPayload ℕ → String
sample_canonical payload = payload.grant_id

abbrev pub sample_grant : ExecutionGrant ℕ
sample_grant = record { payload = sample_payload; signature_scheme = "Ed25519"; signature = "Bw" }

pub signs :
    sign_grant sample_host toy_crypto sample_canonical sample_payload "private" ≡ ok sample_grant
unfolding sign_grant signing_key public_key_id utf8 b64e urlsafe_b64encode rstrip_padding
    drop_padding symbol nth_char
signs = refl

pub now_parsed : parse_rfc3339 sample_host.fromisoformat "120Z" ≡ ok 120
unfolding parse_rfc3339 is_space lstrip strip normalize_zulu require_offset
now_parsed = refl

pub starts : IsReadable sample_host (some "110Z")
unfolding parse_rfc3339 is_space lstrip strip normalize_zulu require_offset
starts = (110, refl)

pub ends : IsReadable sample_host (some "130Z")
unfolding parse_rfc3339 is_space lstrip strip normalize_zulu require_offset
ends = (130, refl)

abbrev good_result : VerificationResult
good_result = record {
  valid = true;
  signature_valid = true;
  within_validity_window = true;
  failure_codes = [];
  issuer_key_id = "ed25519:00";
}

verifies :
    verify_grant sample_host toy_crypto sample_canonical sample_grant "public" "120Z"
      (some "ed25519:00")
    ≡ ok good_result
unfolding verify_grant signature_is_valid check_signature bound_test utf8 b64d a2b_base64
    symbol_value parse_rfc3339 is_space lstrip strip normalize_zulu require_offset
verifies = refl

-- At the instant of the upper bound the grant has expired.
expires :
    verify_grant sample_host toy_crypto sample_canonical sample_grant "public" "130Z" none
    ≡ ok (record good_result {
      valid = false;
      within_validity_window = false;
      failure_codes = "expired" ∷ [];
    })
unfolding verify_grant signature_is_valid check_signature bound_test utf8 b64d a2b_base64
    symbol_value parse_rfc3339 is_space lstrip strip normalize_zulu require_offset
expires = refl

verify_grant-eq-ok_example :
    (t : ℕ) × (parse_rfc3339 sample_host.fromisoformat "120Z" ≡ ok t)
    × ((true ≡ true) ↔ IsGenuine sample_host toy_crypto sample_canonical sample_grant "public")
    × ((true ≡ true) ↔ IsWithin sample_host toy_crypto sample_canonical t sample_payload)
    × ((true ≡ true) ↔ (
        IsNamed (some "ed25519:00") "ed25519:00"
        × IsGenuine sample_host toy_crypto sample_canonical sample_grant "public"
        × IsWithin sample_host toy_crypto sample_canonical t sample_payload))
    × ((true ≡ true) ↔ (◌≡◌ {A = List String} [] []))
verify_grant-eq-ok_example =
    verify_grant-eq-ok sample_host toy_crypto sample_canonical sample_grant "public" "120Z"
      (some "ed25519:00") verifies

verify_grant-sign_grant_example :
    (key : Unit {0}) × (toy_crypto.load_private "private" ≡ ok key)
    × (r : VerificationResult) × (verify_grant sample_host toy_crypto sample_canonical sample_grant
          "public" "120Z"
          (some "ed25519:00")
        ≡ ok r)
    × (r.signature_valid ≡ true)
    × ((r.valid ≡ true) ↔ IsWithin sample_host toy_crypto sample_canonical 120 sample_payload)
verify_grant-sign_grant_example =
    verify_grant-sign_grant toy_crypto sample_host sample_canonical sample_payload "private" "120Z"
      signs now_parsed starts ends

verify_grant_total_example :
    (r : VerificationResult) × (verify_grant sample_host toy_crypto sample_canonical sample_grant
        "public" "120Z" none
      ≡ ok r)
verify_grant_total_example =
    verify_grant_total toy_crypto sample_host sample_canonical sample_grant "public" "120Z" none tt
      (λ k e. cc e) (120, now_parsed) starts ends
