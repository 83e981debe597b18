-- ===== src/IssuerKeys/Custody.antt =====
-- A generated key stays in its file, and signs under the id that was returned.
use connect_governance.Prelude.{
  String, ◌≡◌, ◌≢◌, refl, ◌⊎◌, true, false, some, ◌∷◌, ◌==◌, eq_iff, eq_refl, dict_get, Error, ok,
  err, Bool-cases, inl, inr,
}
use Prim.Native.String.{◌++◌ as text_append}
use connect_governance.Base64.{b64e}
use connect_governance.Signing.{
  signature_scheme, signed_bytes, public_key_id, signing_key, sign_grant,
}
use connect_governance.Signing.Scheme.{Crypto}
use connect_governance.Kernel.Evidence.{Host}
use connect_governance.Signing.Types.{GrantPayload, ExecutionGrant}
use connect_governance.IssuerKeys.{Files, exists, read_file, show_public_pem, generate_key}

module _ (crypto : Crypto) (key : crypto.PrivateKey) (path : String) (files : Files)
    (ed25519 : crypto.is_private_ed25519 key ≡ true) where
  abbrev public : String
  public = crypto.public_pem (crypto.public_key key)

  abbrev written : Files
  written = (path, crypto.private_pem key) ∷ files

  loads : signing_key crypto (crypto.private_pem key) ≡ ok key
  unfolding signing_key
  loads = rw (crypto.load_private-private_pem key ed25519) (rw ed25519 refl)

  stored : dict_get path written ≡ some (crypto.private_pem key)
  stored = rw (eq_refl path) refl

  reads_back : read_file path written ≡ ok (crypto.private_pem key)
  reads_back = rw (read_file, stored) refl

  shows : show_public_pem crypto path written ≡ ok public
  unfolding show_public_pem
  shows = rw reads_back (rw loads refl)

  abbrev key_id : String
  key_id = text_append "ed25519:" (crypto.sha256_hex (crypto.public_raw (crypto.public_key key)))

  names : public_key_id crypto public ≡ ok key_id
  unfolding public_key_id
  names =
      let public_ed25519 = crypto.public_key-ed25519 key ed25519 in
      rw (crypto.load_public-public_pem (crypto.public_key key) public_ed25519)
        (rw public_ed25519 refl)

  generated : exists path files ≡ false → generate_key crypto key path files ≡ (ok key_id, written)
  unfolding generate_key
  generated free = rw (free, shows, names) refl

  others_kept : (p : String) → path ≢ p → dict_get p written ≡ dict_get p files
  others_kept p other = elim (Bool-cases (path == p)) [
    | inl e ↦ absurd (other ((eq_iff path p).0 e))
    | inr e ↦ rw e refl
  ]

  module _ {F : Type 0} (host : Host F) (canonical : GrantPayload F → String) where
    signs :
        (payload : GrantPayload F)
        → payload.grant_format_version ≡ "1"
        → payload.issuer_key_id ≡ key_id
        → (g : ExecutionGrant F) × (sign_grant host crypto canonical payload
              (crypto.private_pem key)
            ≡ ok g)
    unfolding sign_grant
    signs payload version issuer =
        let known = (eq_iff payload.grant_format_version "1").1 version in
        let same = (eq_iff payload.issuer_key_id key_id).1 issuer in
        (
          record {
            payload = payload;
            signature_scheme = signature_scheme;
            signature = b64e (crypto.sign key (signed_bytes host crypto canonical payload));
          },
          rw (known, loads, names, same) refl,
        )

    -- Under a path that is taken, `generate_key` raises FileExistsError and leaves the files as they
    -- were. Under a free path it returns the id of the new key's public key, the file's public PEM
    -- is that key's, the other files stay, and every payload of the known format that names the id
    -- as its issuer is signed with the file's text.
    pub generate_key_cases :
        ((exists path files ≡ true)
          × (generate_key crypto key path files ≡ (err Error.file_exists_error, files)))
        ⊎ ((exists path files ≡ false)
            × (id : String) × (after : Files) × (generate_key crypto key path files
                ≡ (ok id, after))
            × (public_key_id crypto public ≡ ok id)
            × (show_public_pem crypto path after ≡ ok public)
            × ((p : String) → path ≢ p → dict_get p after ≡ dict_get p files)
            × (pem : String) × (read_file path after ≡ ok pem)
            × ((payload : GrantPayload F)
                → payload.grant_format_version ≡ "1"
                → payload.issuer_key_id ≡ id
                → (g : ExecutionGrant F) × (sign_grant host crypto canonical payload pem ≡ ok g)))
    unfolding generate_key
    generate_key_cases = elim (Bool-cases (exists path files)) [
      | inl e ↦ inl (e, rw e refl)
      | inr e ↦ inr (
        e,
        key_id,
        written,
        generated e,
        names,
        shows,
        others_kept,
        crypto.private_pem key,
        reads_back,
        signs,
      )
    ]
