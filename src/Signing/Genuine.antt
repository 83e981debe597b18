-- ===== src/Signing/Genuine.antt =====
-- A grant that was signed verifies.
use connect_governance.Prelude.{
  ℕ, String, ◌≡◌, refl, sym, ap, ◌∙◌, ◌↔◌, true, false, not, some, arith, ◌==◌, eq_iff, Error, ok,
  >>=-eq-ok, Bool-cases, inl, inr,
}
use connect_governance.Kernel.Timestamp.{parse_rfc3339}
use connect_governance.Kernel.Evidence.{Host}
use connect_governance.Kernel.Evaluate.Total.{IsReadable}
use connect_governance.Base64.{b64e}
use connect_governance.Base64.RoundTrip.{b64d-b64e}
use connect_governance.Signing.Types.{GrantPayload, ExecutionGrant, VerificationResult}
use connect_governance.Signing.Scheme.{Crypto}
use connect_governance.Signing.{
  grant_format_version, signature_scheme, signed_bytes, signing_key, public_key_id, sign_grant,
  verify_grant,
}
use connect_governance.Signing.Returns.{returns}
use connect_governance.Signing.Verify.{
  guard-eq-ok, signature_is_valid_iff, IsWithin, IsGenuine, verify_grant-eq-ok,
}

pub not_differs : (a b : String) → not (a == b) ≡ false → a ≡ b
not_differs a b h = (eq_iff a b).0 (ground arith)

module _ (crypto : Crypto) where
  pub signing_key-eq-ok :
      (pem : String) {key : crypto.PrivateKey}
      → signing_key crypto pem ≡ ok key
      → (crypto.load_private pem ≡ ok key) × (crypto.is_private_ed25519 key ≡ true)
  unfolding signing_key
  signing_key-eq-ok pem {key} h =
      let (k, e, h₁) = >>=-eq-ok (crypto.load_private pem) _ h in
      elim (Bool-cases (crypto.is_private_ed25519 k)) [
        | inl b ↦ let same : k ≡ key = cc (rw b at h₁) in (rw same at e, rw same at b)
        | inr b ↦ cc (rw b at h₁)
      ]

  module _ {F : Type 0} (host : Host F) (canonical : GrantPayload F → String) where
    -- The key that signed, and the grant that it made.
    pub record IsSignedBy (payload : GrantPayload F) (pem : String) (grant : ExecutionGrant F)
        (key : crypto.PrivateKey) : Type 0 where
      pub loaded : crypto.load_private pem ≡ ok key
      pub is_ed25519 : crypto.is_private_ed25519 key ≡ true
      pub version : payload.grant_format_version ≡ "1"
      pub issuer :
          public_key_id crypto (crypto.public_pem (crypto.public_key key))
          ≡ ok payload.issuer_key_id
      pub made : grant ≡ record {
        payload = payload;
        signature_scheme = signature_scheme;
        signature = b64e (crypto.sign key (signed_bytes host crypto canonical payload));
      }

    sign_grant-eq-ok :
        (payload : GrantPayload F) (pem : String) {grant : ExecutionGrant F}
        → sign_grant host crypto canonical payload pem ≡ ok grant
        → (key : crypto.PrivateKey) × IsSignedBy payload pem grant key
    unfolding sign_grant
    sign_grant-eq-ok payload pem h =
        let (version, h₁) =
          guard-eq-ok (not (payload.grant_format_version == grant_format_version)) Error.value_error
            h in
        let (key, e, h₂) = >>=-eq-ok (signing_key crypto pem) _ h₁ in
        let (loaded, ed) = signing_key-eq-ok pem e in
        let (actual, e', h₃) =
          >>=-eq-ok (public_key_id crypto (crypto.public_pem (crypto.public_key key))) _ h₂ in
        let (named, h₄) =
          guard-eq-ok (not (payload.issuer_key_id == actual)) Error.value_error h₃ in
        (
          key,
          record {
            loaded = loaded;
            is_ed25519 = ed;
            version = not_differs payload.grant_format_version "1" version;
            issuer = e' ∙ ap ok (sym (not_differs payload.issuer_key_id actual named));
            made = cc;
          },
        )

    pub sign_grant-payload :
        (payload : GrantPayload F) (pem : String) {grant : ExecutionGrant F}
        → sign_grant host crypto canonical payload pem ≡ ok grant
        → grant.payload ≡ payload
    sign_grant-payload payload pem h =
        let (key, by) = sign_grant-eq-ok payload pem h in
        ap (λ (g : ExecutionGrant F). g.payload) by.made

    IsGenuine-of_IsSignedBy :
        (payload : GrantPayload F) (pem : String) (grant : ExecutionGrant F)
        (key : crypto.PrivateKey)
        → IsSignedBy payload pem grant key
        → IsGenuine host crypto canonical grant (crypto.public_pem (crypto.public_key key))
    IsGenuine-of_IsSignedBy payload pem grant key g =
        let message = signed_bytes host crypto canonical payload in
        rw g.made (record {
          scheme_named = refl;
          key = crypto.public_key key;
          loaded =
              crypto.load_public-public_pem (crypto.public_key key)
                (crypto.public_key-ed25519 key g.is_ed25519);
          has_verify =
              crypto.has_verify-ed25519 (crypto.public_key key)
                (crypto.public_key-ed25519 key g.is_ed25519);
          raw = crypto.sign key message;
          decoded =
              b64d-b64e (crypto.sign key message) (crypto.sign-IsByte key message g.is_ed25519);
          accepts = crypto.verify-sign key message g.is_ed25519;
        })

    -- A grant that `sign_grant` returned verifies under the public key of the signing key, at every
    -- timestamp, if its bounds are timestamps: the signature is valid, and the grant is valid
    -- exactly within its window.
    pub verify_grant-sign_grant :
        (payload : GrantPayload F) (pem at : String) {grant : ExecutionGrant F} {t : ℕ}
        → sign_grant host crypto canonical payload pem ≡ ok grant
        → parse_rfc3339 host.fromisoformat at ≡ ok t
        → IsReadable host payload.not_before
        → IsReadable host payload.not_after
        → (key : crypto.PrivateKey) × (crypto.load_private pem ≡ ok key)
          × (r : VerificationResult) × (verify_grant host crypto canonical grant
                (crypto.public_pem (crypto.public_key key))
                at
                (some payload.issuer_key_id)
              ≡ ok r)
          × (r.signature_valid ≡ true)
          × ((r.valid ≡ true) ↔ IsWithin host crypto canonical t payload)
    verify_grant-sign_grant payload pem at {grant} {t} h parsed before after =
        let (key, by) = sign_grant-eq-ok payload pem h in
        let public = crypto.public_pem (crypto.public_key key) in
        let same = sign_grant-payload payload pem h in
        let genuine = IsGenuine-of_IsSignedBy payload pem grant key by in
        let checked = (signature_is_valid_iff crypto _ _ _ _).1 genuine in
        let (r, returned) =
          returns crypto host canonical grant public at (some payload.issuer_key_id) checked
            (t, parsed) (rw same before) (rw same after) in
        let (t', parsed', signed, window, valid, codes) =
          verify_grant-eq-ok host crypto canonical grant public at (some payload.issuer_key_id)
            returned in
        let now : t' ≡ t = cc in
        let within : IsWithin host crypto canonical t' grant.payload
            ↔ IsWithin host crypto canonical t payload =
          rw (now, same) (λ x. x, λ x. x) in
        (
          key,
          by.loaded,
          r,
          returned,
          signed.1 genuine,
          (
            λ v. within.0 (valid.0 v).2,
            λ w. valid.1 (ap (λ (p : GrantPayload F). p.issuer_key_id) same, genuine, within.1 w),
          ),
        )
