-- ===== src/Signing/Verify.antt =====
-- What a verification says of a grant, and when it returns.
use connect_governance.Prelude.{
  ℕ, ◌≤◌, ◌<◌, String, ◌≡◌, refl, ◌↔◌, Bool, true, false, not, Option, none, some, List, [], arith,
  ltb, leb, ◌==◌, eq_iff, if◌then◌else◌, Error, Result, ok, err, >>=-eq-ok, Bool-cases, inl, inr,
}
use connect_governance.Kernel.Timestamp.{parse_rfc3339}
use connect_governance.Kernel.Evidence.{Host}
use connect_governance.Kernel.Authority.{bound_test}
use connect_governance.Kernel.Authority.Window.{Bounded, bound_test_iff}
use connect_governance.Base64.{b64d}
use connect_governance.Signing.Types.{GrantPayload, ExecutionGrant, VerificationResult}
use connect_governance.Signing.Scheme.{Crypto}
use connect_governance.Signing.{
  signature_scheme, accepted, check_signature, signature_is_valid, id_differs, signed_bytes,
  conclude_grant, verify_grant,
}

-- The expected key id, if there is one, is the one that is named.
abbrev pub IsNamed : Option String → String → Type 0
IsNamed none key_id = Unit
IsNamed (some expected) key_id = key_id ≡ expected

pub IsNamed-iff : (o : Option String) (k : String) → (id_differs o k ≡ false) ↔ IsNamed o k
IsNamed-iff none k = (λ h. tt, λ h. refl)
IsNamed-iff (some e) k = (λ h. (eq_iff k e).0 (ground arith), λ h. ground (arith, (eq_iff k e).1 h))

accepted-true : (r : Result (Unit {0})) → accepted r ≡ ok true → r ≡ ok tt
accepted-true (ok u) h = refl
accepted-true (err Error.invalid_signature) h = cc
accepted-true (err e) h = cc

pub ok_injective : {A : Type 0} {a b : A} → ◌≡◌ {A = Result A} (ok a) (ok b) → a ≡ b
ok_injective h = cc

-- A guard that let a result through.
pub guard-eq-ok :
    {A : Type 0} (b : Bool) (x : Error) {r : Result A} {a : A}
    → (if b then err x else r) ≡ ok a
    → (b ≡ false) × (r ≡ ok a)
guard-eq-ok true x h = cc
guard-eq-ok false x h = (refl, h)

-- What the four tests make of the result.
module _ {F : Type 0} (grant : ExecutionGrant F) where
  concluded : Bool → Bool → Bool → Bool → VerificationResult
  concluded differs signed early late = conclude_grant grant differs signed early late

  concluded-window :
      (differs signed early late : Bool)
      → ((concluded differs signed early late).within_validity_window ≡ true)
        ↔ ((early ≡ false) × (late ≡ false))
  unfolding concluded
  concluded-window d s e l = (λ h. (ground arith, ground arith), λ h. ground arith)

  concluded-valid :
      (differs signed early late : Bool)
      → ((concluded differs signed early late).valid ≡ true)
        ↔ ((differs ≡ false) × (signed ≡ true) × (early ≡ false) × (late ≡ false))
  unfolding concluded
  concluded-valid true s e l = (λ h. ground arith, λ h. cc h.0)
  concluded-valid false s e l =
      (λ h. (refl, ground arith, ground arith, ground arith), λ h. ground arith)

  concluded-codes :
      (differs signed early late : Bool)
      → ((concluded differs signed early late).valid ≡ true)
        ↔ ((concluded differs signed early late).failure_codes ≡ [])
  unfolding concluded
  concluded-codes d s e l = (λ h. ground arith, λ h. ground arith)

module _ (crypto : Crypto) where
  -- The scheme is Ed25519, the PEM text holds a key, and it accepts the decoded signature.
  pub record IsSigned (scheme public_key_pem signature : String) (message : List ℕ) : Type 0 where
    pub scheme_named : scheme ≡ signature_scheme
    pub key : crypto.PublicKey
    pub loaded : crypto.load_public public_key_pem ≡ ok key
    pub has_verify : crypto.has_verify key ≡ true
    pub raw : List ℕ
    pub decoded : b64d signature ≡ ok raw
    pub accepts : crypto.verify key raw message ≡ ok tt

  -- The check of a signature succeeds exactly on a signature that the key accepts.
  pub signature_is_valid_iff :
      (scheme pem signature : String) (message : List ℕ)
      → (signature_is_valid crypto scheme pem signature message ≡ ok true)
        ↔ IsSigned scheme pem signature message
  unfolding signature_is_valid check_signature
  signature_is_valid_iff scheme pem signature message = (to, from)
    where
      to :
          signature_is_valid crypto scheme pem signature message ≡ ok true
          → IsSigned scheme pem signature message
      to h = elim (Bool-cases (scheme == signature_scheme)) [
        | inr e ↦ cc (rw e at h)
        | inl e ↦
            let h' = accepted-true _ (rw e at h) in
            let (key, loaded, h₁) = >>=-eq-ok (crypto.load_public pem) _ h' in
            let (verifies, h₂) =
              guard-eq-ok (not (crypto.has_verify key)) Error.attribute_error h₁ in
            let (raw, decoded, h₃) = >>=-eq-ok (b64d signature) _ h₂ in
            record {
              scheme_named = (eq_iff scheme signature_scheme).0 e;
              key = key;
              loaded = loaded;
              has_verify = ground arith;
              raw = raw;
              decoded = decoded;
              accepts = h₃;
            }
      ]

      from :
          IsSigned scheme pem signature message
          → signature_is_valid crypto scheme pem signature message ≡ ok true
      from g =
          rw ((eq_iff scheme signature_scheme).1 g.scheme_named, g.loaded)
            (rw (g.has_verify, g.decoded) (rw (g.accepts)))

module _ {F : Type 0} (host : Host F) (crypto : Crypto) (canonical : GrantPayload F → String) where
  -- not_before <= t < not_after, for each bound that is given.
  abbrev pub IsWithin : ℕ → GrantPayload F → Type 0
  IsWithin t payload =
      Bounded host (λ from. from ≤ t) payload.not_before
      × Bounded host (λ until. t < until) payload.not_after

  -- The signature is that of the payload's canonical bytes.
  abbrev pub IsGenuine : ExecutionGrant F → String → Type 0
  IsGenuine grant public_key_pem =
      IsSigned crypto grant.signature_scheme public_key_pem grant.signature
        (signed_bytes host crypto canonical grant.payload)

  module _ (grant : ExecutionGrant F) (pem at : String) (expected : Option String) where
    check : Result Bool
    check =
        signature_is_valid crypto grant.signature_scheme pem grant.signature
          (signed_bytes host crypto canonical grant.payload)

    IsGenuine-iff : {signed : Bool} → check ≡ ok signed → (signed ≡ true) ↔ IsGenuine grant pem
    unfolding check
    IsGenuine-iff {signed} e =
        let key =
          signature_is_valid_iff crypto grant.signature_scheme pem grant.signature
            (signed_bytes host crypto canonical grant.payload) in
        (λ h. key.0 (rw (← h) e), λ g. ok_injective (rw e at key.1 g))

    -- What a verification that returned says: the signature is valid exactly if the grant is
    -- genuine, the window is exactly the half-open one, and the grant is valid exactly if its
    -- issuer is the expected one, it is genuine and it is within its window; exactly then no code
    -- is given.
    pub verify_grant-eq-ok :
        {r : VerificationResult}
        → verify_grant host crypto canonical grant pem at expected ≡ ok r
        → (t : ℕ) × (parse_rfc3339 host.fromisoformat at ≡ ok t)
          × ((r.signature_valid ≡ true) ↔ IsGenuine grant pem)
          × ((r.within_validity_window ≡ true) ↔ IsWithin t grant.payload)
          × ((r.valid ≡ true) ↔ (
              IsNamed expected grant.payload.issuer_key_id
              × IsGenuine grant pem
              × IsWithin t grant.payload))
          × ((r.valid ≡ true) ↔ (r.failure_codes ≡ []))
    unfolding verify_grant check concluded
    verify_grant-eq-ok {r} h =
        let (signed, e, h₁) = >>=-eq-ok check _ h in
        let (t, parsed, h₂) = >>=-eq-ok (parse_rfc3339 host.fromisoformat at) _ h₁ in
        let (early, e', h₃) =
          >>=-eq-ok (bound_test host grant.payload.not_before (λ from. ltb t from)) _ h₂ in
        let (late, e'', h₄) =
          >>=-eq-ok (bound_test host grant.payload.not_after (λ until. leb until t)) _ h₃ in
        let differs = id_differs expected grant.payload.issuer_key_id in
        let made : concluded grant differs signed early late ≡ r = ok_injective h₄ in
        let genuine = IsGenuine-iff e in
        let named = IsNamed-iff expected grant.payload.issuer_key_id in
        let started =
          bound_test_iff host (λ from. from ≤ t) (λ from. ltb t from) grant.payload.not_before
            (λ x. (λ y. ground arith, λ y. ground arith)) e' in
        let going_on =
          bound_test_iff host (λ until. t < until) (λ until. leb until t) grant.payload.not_after
            (λ x. (λ y. ground arith, λ y. ground arith)) e'' in
        let window = concluded-window grant differs signed early late in
        let valid = concluded-valid grant differs signed early late in
        (
          t,
          parsed,
          rw (← made) genuine,
          rw (← made) (
            λ x. let (a, b) = window.0 x in (started.0 a, going_on.0 b),
            λ (a, b). window.1 (started.1 a, going_on.1 b),
          ),
          rw (← made) (
            λ x.
                let (d, g, a, b) = valid.0 x in
                (named.0 d, genuine.0 g, (started.0 a, going_on.0 b)),
            λ (n, g, w). valid.1 (named.1 n, genuine.1 g, started.1 w.0, going_on.1 w.1),
          ),
          rw (← made) (concluded-codes grant differs signed early late),
        )
