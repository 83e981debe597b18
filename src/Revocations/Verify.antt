-- ===== src/Revocations/Verify.antt =====
-- What the check of a revocation list says, and the check of a list that was built.
use connect_governance.Prelude.{
  String, ◌≡◌, refl, sym, ◌∙◌, ap, subst, ◌↔◌, Bool, true, false, not, Option, some, List, [],
  arith, ◌==◌, eq_iff, eq_refl, Error, ok, >>=-eq-ok,
}
use connect_governance.Base64.{b64e}
use connect_governance.Base64.RoundTrip.{b64d-b64e}
use connect_governance.Signing.{
  signature_scheme, public_key_id, signing_key, signature_is_valid, id_differs,
}
use connect_governance.Signing.Scheme.{Crypto}
use connect_governance.Signing.Verify.{
  guard-eq-ok, IsNamed, IsNamed-iff, IsSigned, signature_is_valid_iff, ok_injective,
}
use connect_governance.Signing.Genuine.{signing_key-eq-ok, not_differs}
use connect_governance.Revocations.Types.{
  RevocationList, RevocationPayload, RevocationListVerification,
}
use connect_governance.Revocations.{
  revocation_list_format_version, conclude_list, signed_bytes, build_revocation_list,
  verify_revocation_list,
}

concluded-valid :
    (known_version key_differs known_scheme signed : Bool) (key_id list_id : String)
    → ((conclude_list known_version key_differs known_scheme signed key_id list_id).valid ≡ true)
      ↔ ((known_version ≡ true) × (key_differs ≡ false) × (known_scheme ≡ true) × (signed ≡ true))
concluded-valid known_version key_differs known_scheme signed key_id list_id =
    (λ h. (ground arith, ground arith, ground arith, ground arith), λ h. ground arith)

module _ (crypto : Crypto) (canonical : RevocationPayload → String) where
  -- The signature is that of the canonical bytes of the list without it.
  abbrev pub IsGenuine : RevocationList → String → Type 0
  IsGenuine l public_key_pem =
      IsSigned crypto l.signature_scheme public_key_pem l.signature
        (signed_bytes crypto canonical l)

  -- What a check that returned says: the signature is valid exactly if the list is genuine, and the
  -- list is valid exactly if its format is the known one, its issuer the expected one, and it is
  -- genuine.
  pub verify_revocation_list-eq-ok :
      (l : RevocationList) (pem : String) (expected : Option String)
      {r : RevocationListVerification}
      → verify_revocation_list crypto canonical l pem expected ≡ ok r
      → ((r.signature_valid ≡ true) ↔ IsGenuine l pem)
        × ((r.valid ≡ true) ↔ (
            (l.revocation_list_format_version ≡ "1")
            × IsNamed expected l.issuer_key_id
            × IsGenuine l pem))
  unfolding verify_revocation_list
  verify_revocation_list-eq-ok l pem expected {r} h =
      let (signed, e, h₁) =
        >>=-eq-ok
          (signature_is_valid crypto l.signature_scheme pem l.signature
            (signed_bytes crypto canonical l))
          _ h in
      let made : conclude_list (l.revocation_list_format_version == "1")
            (id_differs expected l.issuer_key_id) (l.signature_scheme == "Ed25519") signed
            l.issuer_key_id l.list_id
          ≡ r =
        ok_injective h₁ in
      let key =
        signature_is_valid_iff crypto l.signature_scheme pem l.signature
          (signed_bytes crypto canonical l) in
      let genuine : (signed ≡ true) ↔ IsGenuine l pem =
        (λ x. key.0 (rw (← x) e), λ g. ok_injective (rw e at key.1 g)) in
      let valid =
        concluded-valid (l.revocation_list_format_version == "1")
          (id_differs expected l.issuer_key_id) (l.signature_scheme == "Ed25519") signed
          l.issuer_key_id l.list_id in
      let named = IsNamed-iff expected l.issuer_key_id in
      (
        rw (← made) genuine,
        rw (← made) (
          λ x.
              let (v, d, s, g) = valid.0 x in
              ((eq_iff l.revocation_list_format_version "1").0 v, named.0 d, genuine.0 g),
          λ (v, n, g). valid.1 (
            (eq_iff l.revocation_list_format_version "1").1 v,
            named.1 n,
            (eq_iff l.signature_scheme "Ed25519").1 g.scheme_named,
            genuine.1 g,
          ),
        ),
      )

  abbrev signed_list :
      (list_id issuer_key_id issued_at : String)
      → List String
      → Option String
      → crypto.PrivateKey
      → RevocationList
  signed_list list_id issuer issued_at revoked supersedes key =
      let unsigned : RevocationList = record {
        revocation_list_format_version = revocation_list_format_version;
        issuer_key_id = issuer;
        issued_at = issued_at;
        revoked_grant_ids = revoked;
        supersedes = supersedes;
        list_id = list_id;
        signature_scheme = signature_scheme;
        signature = "";
      } in
      record unsigned {
        signature = b64e (crypto.sign key (signed_bytes crypto canonical unsigned));
      }

  signed_list-IsGenuine :
      (list_id issuer issued_at : String) (revoked : List String) (supersedes : Option String)
      (key : crypto.PrivateKey)
      → crypto.is_private_ed25519 key ≡ true
      → IsGenuine
          (signed_list list_id issuer issued_at revoked supersedes key)
          (crypto.public_pem (crypto.public_key key))
  signed_list-IsGenuine list_id issuer issued_at revoked supersedes key ed =
      let l = signed_list list_id issuer issued_at revoked supersedes key in
      let raw = crypto.sign key (signed_bytes crypto canonical l) in
      record {
        scheme_named = refl;
        key = crypto.public_key key;
        loaded =
            crypto.load_public-public_pem (crypto.public_key key)
              (crypto.public_key-ed25519 key ed);
        has_verify =
            crypto.has_verify-ed25519 (crypto.public_key key) (crypto.public_key-ed25519 key ed);
        raw = raw;
        decoded = b64d-b64e raw (crypto.sign-IsByte key (signed_bytes crypto canonical l) ed);
        accepts = crypto.verify-sign key (signed_bytes crypto canonical l) ed;
      }

  -- The key of the PEM text signed for the issuer, and the check of the list finds it valid.
  pub IsValidFor : (private_key_pem issuer_key_id : String) → RevocationList → Type 0
  IsValidFor pem issuer l =
      (key : crypto.PrivateKey) × (crypto.load_private pem ≡ ok key)
      × (public_key_id crypto (crypto.public_pem (crypto.public_key key)) ≡ ok issuer)
      × ((r : RevocationListVerification) × (verify_revocation_list crypto canonical l
              (crypto.public_pem (crypto.public_key key)) (some issuer)
            ≡ ok r)
          × (r.valid ≡ true)
          × (r.failure_codes ≡ []))

  genuine_valid :
      (l : RevocationList) (pem : String)
      → l.revocation_list_format_version ≡ "1"
      → IsGenuine l pem
      → (r : RevocationListVerification) × (verify_revocation_list crypto canonical l pem
            (some l.issuer_key_id)
          ≡ ok r)
        × (r.valid ≡ true)
        × (r.failure_codes ≡ [])
  unfolding verify_revocation_list
  genuine_valid l pem version g =
      let checked =
        (signature_is_valid_iff crypto l.signature_scheme pem l.signature
            (signed_bytes crypto canonical l)).1
          g in
      let known = (eq_iff l.revocation_list_format_version "1").1 version in
      let scheme = (eq_iff l.signature_scheme "Ed25519").1 g.scheme_named in
      (
        conclude_list true false true true l.issuer_key_id l.list_id,
        rw checked (rw (known, scheme, eq_refl l.issuer_key_id) refl),
        refl,
        refl,
      )

  -- A list that `build_revocation_list` returned names the issuer whose key signed it, and is
  -- valid under that key's public key.
  pub build_revocation_list_verifies :
      (list_id issuer_key_id issued_at : String) (revoked : List String)
      (supersedes : Option String) (pem : String) {l : RevocationList}
      → build_revocation_list crypto canonical list_id issuer_key_id issued_at revoked supersedes
          pem
        ≡ ok l
      → IsValidFor pem issuer_key_id l
  unfolding build_revocation_list IsValidFor
  build_revocation_list_verifies list_id issuer issued_at revoked supersedes pem {l} h =
      let (key, e, h₁) = >>=-eq-ok (signing_key crypto pem) _ h in
      let (loaded, ed) = signing_key-eq-ok crypto pem e in
      let public = crypto.public_pem (crypto.public_key key) in
      let (actual, e', h₂) = >>=-eq-ok (public_key_id crypto public) _ h₁ in
      let (named, h₃) = guard-eq-ok (not (issuer == actual)) Error.value_error h₂ in
      let same : issuer ≡ actual = not_differs issuer actual named in
      let made : signed_list list_id issuer issued_at revoked supersedes key ≡ l =
        ok_injective h₃ in
      let genuine = signed_list-IsGenuine list_id issuer issued_at revoked supersedes key ed in
      subst (λ x. IsValidFor pem issuer x) made
        (
          key,
          loaded,
          e' ∙ ap ok (sym same),
          genuine_valid (signed_list list_id issuer issued_at revoked supersedes key) public refl
              genuine,
        )
