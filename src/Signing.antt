-- ===== src/Signing.antt =====
-- src/connect_governance_grants/signing.py: grants are signed and verified over canonical bytes.
pub mod Types
pub mod Scheme
pub mod Verify
pub mod Returns
pub mod Genuine
pub mod Covered
use Prim.Native.Nat.{◌*◌, ◌/◌, ◌%◌}
use Prim.Native.Char.{Char, code}
use Prim.Native.String.{◌++◌ as text_append}
use connect_governance.Prelude.{
  ℕ, ◌+◌, String, Bool, true, false, not, ◌&&◌, Option, none, some, List, [], ◌∷◌, ◌++◌, is_nil,
  ltb, leb, ◌==◌, if◌then◌else◌, Error, Result, ok, err, ◌>>=◌,
}
use connect_governance.Kernel.Timestamp.{parse_rfc3339}
use connect_governance.Kernel.Evidence.{Host}
use connect_governance.Kernel.Authority.{bound_test}
use connect_governance.Base64.{b64e, b64d}
use connect_governance.Signing.Types.{GrantPayload, ExecutionGrant, VerificationResult}
use connect_governance.Signing.Scheme.{Crypto}

abbrev pub grant_format_version : String
grant_format_version = "1"

abbrev pub signature_scheme : String
signature_scheme = "Ed25519"

-- str.encode("utf-8")
unfoldable pub utf8 : String → List ℕ
utf8 String.[] = []
utf8 (String.◌∷◌ c s) =
    let n = code c in
    let rest = utf8 s in
    if ltb n 0x80
    then n ∷ rest
    else if ltb n 0x800
    then (0xc0 + n / 0x40) ∷ (0x80 + n % 0x40) ∷ rest
    else if ltb n 0x10000
    then (0xe0 + n / 0x1000) ∷ (0x80 + n / 0x40 % 0x40) ∷ (0x80 + n % 0x40) ∷ rest
    else (0xf0 + n / 0x40000)
      ∷ (0x80 + n / 0x1000 % 0x40)
      ∷ (0x80 + n / 0x40 % 0x40)
      ∷ (0x80 + n % 0x40)
      ∷ rest

-- try: ... except (InvalidSignature, ValueError)
abbrev pub accepted : Result (Unit {0}) → Result Bool
accepted (ok u) = ok true
accepted (err Error.invalid_signature) = ok false
accepted (err Error.value_error) = ok false
accepted (err e) = err e

module _ (crypto : Crypto) where
  unfoldable pub public_key_id : String → Result String
  public_key_id public_key_pem = do
    key ← crypto.load_public public_key_pem
    if crypto.is_public_ed25519 key
        then ok (text_append "ed25519:" (crypto.sha256_hex (crypto.public_raw key)))
        else err Error.value_error

  -- The key of a PEM text, or ValueError for a key of another kind.
  unfoldable pub signing_key : String → Result crypto.PrivateKey
  signing_key private_key_pem = do
    key ← crypto.load_private private_key_pem
    if crypto.is_private_ed25519 key then ok key else err Error.value_error

  unfoldable pub check_signature :
      (public_key_pem signature : String) (message : List ℕ) → Result (Unit {0})
  check_signature public_key_pem signature message = do
    key ← crypto.load_public public_key_pem
    if not (crypto.has_verify key)
        then err Error.attribute_error
        else do raw ← b64d signature; crypto.verify key raw message

  unfoldable pub signature_is_valid :
      (scheme public_key_pem signature : String) (message : List ℕ) → Result Bool
  signature_is_valid scheme public_key_pem signature message =
      if scheme == signature_scheme
      then accepted (check_signature public_key_pem signature message)
      else ok false

-- expected is not None and key_id != expected
abbrev pub id_differs : Option String → String → Bool
id_differs none key_id = false
id_differs (some expected) key_id = not (key_id == expected)

-- failures.append(code), under a condition
abbrev pub failing : Bool → String → List String
failing b c = if b then c ∷ [] else []

abbrev pub conclude_grant :
    {F : Type 0}
    → ExecutionGrant F
    → (key_differs signature_valid early late : Bool) → VerificationResult
conclude_grant grant key_differs signature_valid early late =
    let failures =
      failing key_differs "key_id_mismatch"
      ++ failing (not signature_valid) "signature_mismatch"
      ++ failing early "not_yet_valid"
      ++ failing late "expired" in
    let within_window = not early && not late in
    record {
      valid = signature_valid && within_window && is_nil failures;
      signature_valid = signature_valid;
      within_validity_window = within_window;
      failure_codes = failures;
      issuer_key_id = grant.payload.issuer_key_id;
    }

module _ {F : Type 0} (host : Host F) (crypto : Crypto) (canonical : GrantPayload F → String) where
  abbrev pub signed_bytes : GrantPayload F → List ℕ
  signed_bytes payload = utf8 (canonical payload)

  unfoldable pub sign_grant : GrantPayload F → String → Result (ExecutionGrant F)
  sign_grant payload private_key_pem =
      if not (payload.grant_format_version == grant_format_version)
      then err Error.value_error
      else do
        key ← signing_key crypto private_key_pem
        actual_id ← public_key_id crypto (crypto.public_pem (crypto.public_key key))
        if not (payload.issuer_key_id == actual_id)
            then err Error.value_error
            else ok (record {
              payload = payload;
              signature_scheme = signature_scheme;
              signature = b64e (crypto.sign key (signed_bytes payload));
            })

  unfoldable pub verify_grant :
      ExecutionGrant F
      → (public_key_pem at : String) → (expected_key_id : Option String) → Result VerificationResult
  verify_grant grant public_key_pem at expected_key_id = do
    signature_valid ←
        signature_is_valid crypto grant.signature_scheme public_key_pem grant.signature
          (signed_bytes grant.payload)
    t ← parse_rfc3339 host.fromisoformat at
    early ← bound_test host grant.payload.not_before (λ from. ltb t from)
    late ← bound_test host grant.payload.not_after (λ until. leb until t)
    ok (
        conclude_grant grant (id_differs expected_key_id grant.payload.issuer_key_id)
          signature_valid early late)
