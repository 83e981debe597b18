-- ===== src/Signing/Returns.antt =====
-- When a verification returns.
use connect_governance.Prelude.{
  ℕ, String, ◌≡◌, refl, Bool, true, false, Option, List, ltb, leb, ◌==◌, Error, ok, err,
  Result-cases, Bool-cases, inl, inr,
}
use connect_governance.Kernel.Evidence.{Host}
use connect_governance.Kernel.Evaluate.Total.{IsTimestamp, IsReadable, bound_test_total}
use connect_governance.Base64.{b64d}
use connect_governance.Base64.Errors.{IsOkOrValueError, b64d-IsOkOrValueError}
use connect_governance.Signing.Types.{GrantPayload, ExecutionGrant, VerificationResult}
use connect_governance.Signing.Scheme.{Crypto}
use connect_governance.Signing.{
  signature_scheme, accepted, check_signature, signature_is_valid, id_differs, signed_bytes,
  conclude_grant, verify_grant,
}

accepted_value_error :
    (x : Error) → IsOkOrValueError {A = Unit {0}} (err x) → accepted (err x) ≡ ok false
accepted_value_error Error.value_error h = refl
accepted_value_error x h = absurd h

module _ (crypto : Crypto) where
  module _ {F : Type 0} (host : Host F) (canonical : GrantPayload F → String) where
    -- The check of a signature returns, whatever the signature.
    check_returns :
        (scheme pem signature : String) (message : List ℕ)
        → IsOkOrValueError (crypto.load_public pem)
        → ((k : crypto.PublicKey)
            → crypto.load_public pem ≡ ok k
            → crypto.is_public_ed25519 k ≡ true)
        → (b : Bool) × (signature_is_valid crypto scheme pem signature message ≡ ok b)
    unfolding signature_is_valid check_signature
    check_returns scheme pem signature message load only =
        elim (Bool-cases (scheme == signature_scheme)) [
          | inr e ↦ (false, rw e)
          | inl e ↦ elim (Result-cases (crypto.load_public pem)) [
            | inr (x, l) ↦ (false, rw (e, l) (accepted_value_error x (rw l at load)))
            | inl (k, l) ↦ elim (Result-cases (b64d signature)) [
              | inr (x, d) ↦ (
                false,
                rw (e, l)
                    (rw (crypto.has_verify-ed25519 k (only k l), d)
                      (accepted_value_error x (rw d at (b64d-IsOkOrValueError signature)))),
              )
              | inl (raw, d) ↦ elim (crypto.verify_ends k raw message (only k l)) [
                | inl v ↦ (true, rw (e, l) (rw (crypto.has_verify-ed25519 k (only k l), d) (rw v)))
                | inr v ↦ (false, rw (e, l) (rw (crypto.has_verify-ed25519 k (only k l), d) (rw v)))
              ]
            ]
          ]
        ]

    -- A verification returns if the check of the signature does and the timestamps can be read.
    pub returns :
        (grant : ExecutionGrant F) (pem at : String) (expected : Option String) {signed : Bool}
        → signature_is_valid crypto grant.signature_scheme pem grant.signature
            (signed_bytes host crypto canonical grant.payload)
          ≡ ok signed
        → IsTimestamp host at
        → IsReadable host grant.payload.not_before
        → IsReadable host grant.payload.not_after
        → (r : VerificationResult) × (verify_grant host crypto canonical grant pem at expected
            ≡ ok r)
    unfolding verify_grant
    returns grant pem at expected {signed} e (t, parsed) before after =
        let (early, e') =
          bound_test_total host grant.payload.not_before (λ from. ltb t from) before in
        let (late, e'') =
          bound_test_total host grant.payload.not_after (λ until. leb until t) after in
        (
          conclude_grant grant (id_differs expected grant.payload.issuer_key_id) signed early late,
          rw (e, parsed, e', e''),
        )

    -- A grant whose public key is refused with ValueError, or is an
    -- Ed25519 key, is verified without an exception whatever its signature, at every timestamp, if
    -- its bounds are timestamps: a malformed signature is an answer, and no exception.
    pub verify_grant_total :
        (grant : ExecutionGrant F) (pem at : String) (expected : Option String)
        → IsOkOrValueError (crypto.load_public pem)
        → ((k : crypto.PublicKey)
            → crypto.load_public pem ≡ ok k
            → crypto.is_public_ed25519 k ≡ true)
        → IsTimestamp host at
        → IsReadable host grant.payload.not_before
        → IsReadable host grant.payload.not_after
        → (r : VerificationResult) × (verify_grant host crypto canonical grant pem at expected
            ≡ ok r)
    verify_grant_total grant pem at expected load only timed before after =
        let (b, e) =
          check_returns grant.signature_scheme pem grant.signature
            (signed_bytes host crypto canonical grant.payload) load only in
        returns grant pem at expected e timed before after
