-- ===== src/Revocations.antt =====
-- src/connect_governance/revocations.py: signed revocation lists, chained per issuer.
pub mod Types
pub mod Verify
pub mod Chain
pub mod Recorded
pub mod History
pub mod Document
pub mod Covered
use connect_governance.Prelude.{
  ℕ, String, Bool, true, false, not, Option, none, some, List, [], ◌∷◌, ◌++◌, filter, elem, is_nil,
  ◌==◌, if◌then◌else◌, Error, Result, ok, err, ◌>>=◌ as ◌>>=ᵣ◌,
}
use connect_governance.Codec.{Codec}
use connect_governance.Schema.{RevocationListRecord}
use connect_governance.Store.{Database, Session, Row, Exec, pure, reads, flush, ◌>>=◌, ◌>>◌}
use connect_governance.Base64.{b64e}
use connect_governance.Signing.Scheme.{Crypto}
use connect_governance.Signing.{
  signature_scheme, utf8, public_key_id, signing_key, signature_is_valid, id_differs, failing,
}
use connect_governance.Revocations.Types.{
  RevocationList, RevocationPayload, RevocationListVerification,
}

abbrev pub revocation_list_format_version : String
revocation_list_format_version = "1"

-- {k: v for k, v in dump.items() if k != "signature"}
abbrev pub payload_dict : RevocationList → RevocationPayload
payload_dict l = record {
  revocation_list_format_version = l.revocation_list_format_version;
  issuer_key_id = l.issuer_key_id;
  issued_at = l.issued_at;
  revoked_grant_ids = l.revoked_grant_ids;
  supersedes = l.supersedes;
  list_id = l.list_id;
  signature_scheme = l.signature_scheme;
}

-- What the four tests make of the result.
abbrev pub conclude_list :
    (known_version key_differs known_scheme signature_valid : Bool)
    → (key_id list_id : String) → RevocationListVerification
conclude_list known_version key_differs known_scheme signature_valid key_id list_id =
    let failures =
      failing (not known_version) "unsupported_format_version"
      ++ failing key_differs "key_id_mismatch"
      ++ failing (not known_scheme) "unsupported_scheme"
      ++ failing (not signature_valid) "signature_mismatch" in
    record {
      valid = is_nil failures;
      signature_valid = signature_valid;
      failure_codes = failures;
      issuer_key_id = key_id;
      list_id = list_id;
    }

module _ (crypto : Crypto) (canonical : RevocationPayload → String) where
  abbrev pub signed_bytes : RevocationList → List ℕ
  signed_bytes l = utf8 (canonical (payload_dict l))

  unfoldable pub build_revocation_list :
      (list_id issuer_key_id issued_at : String)
      → (revoked_grant_ids : List String) → (supersedes : Option String)
      → (private_key_pem : String) → Result RevocationList
  build_revocation_list list_id issuer_key_id issued_at revoked_grant_ids supersedes
        private_key_pem =
      signing_key crypto private_key_pem >>=ᵣ λ key.
      public_key_id crypto (crypto.public_pem (crypto.public_key key)) >>=ᵣ λ actual_id.
      if not (issuer_key_id == actual_id)
      then err Error.value_error
      else (let unsigned : RevocationList = record {
        revocation_list_format_version = revocation_list_format_version;
        issuer_key_id = issuer_key_id;
        issued_at = issued_at;
        revoked_grant_ids = revoked_grant_ids;
        supersedes = supersedes;
        list_id = list_id;
        signature_scheme = signature_scheme;
        signature = "";
      } in
          ok (record unsigned { signature = b64e (crypto.sign key (signed_bytes unsigned)) }))

  -- For the typed argument.
  unfoldable pub verify_revocation_list :
      RevocationList
      → (public_key_pem : String) → (expected_key_id : Option String)
      → Result RevocationListVerification
  verify_revocation_list l public_key_pem expected_key_id =
      signature_is_valid crypto l.signature_scheme public_key_pem l.signature (signed_bytes l)
      >>=ᵣ λ signature_valid. ok (
          conclude_list (l.revocation_list_format_version == revocation_list_format_version)
            (id_differs expected_key_id l.issuer_key_id) (l.signature_scheme == signature_scheme)
            signature_valid l.issuer_key_id l.list_id)

-- {r.supersedes for r in rows if r.supersedes is not None}
abbrev pub superseded : List RevocationListRecord → List String
superseded [] = []
superseded (r ∷ rows) = elim r.supersedes [ none ↦ superseded rows | some k ↦ k ∷ superseded rows ]

-- [r for r in rows if r.list_id not in superseded]
abbrev pub chain_heads : List RevocationListRecord → List RevocationListRecord
chain_heads rows = filter (λ r. not (elem r.list_id (superseded rows))) rows

-- At most one head: heads[0] if heads else None.
abbrev pub only_head : List RevocationListRecord → Result (Option RevocationListRecord)
only_head [] = ok none
only_head (r ∷ []) = ok (some r)
only_head (r ∷ q ∷ rows) = err Error.revocation_chain_refused

abbrev pub list_id_of : Option RevocationListRecord → Option String
list_id_of none = none
list_id_of (some r) = some r.list_id

abbrev pub same_id : Option String → Option String → Bool
same_id none none = true
same_id (some a) (some b) = a == b
same_id none (some b) = false
same_id (some a) none = false

module _ {F : Type 0} (lists : Codec RevocationList) (db : Database F) where
  -- select(...).where(issuer_key_id == issuer_key_id).order_by(list_id)
  abbrev pub lists_of : String → Session db → List RevocationListRecord
  lists_of issuer_key_id s =
      filter (λ r. r.issuer_key_id == issuer_key_id)
        (db.revocation_list_records.scan s.revocation_list_records)

  unfoldable pub latest_revocation_list : Session db → String → Result (Option RevocationListRecord)
  latest_revocation_list s issuer_key_id = only_head (chain_heads (lists_of issuer_key_id s))

  abbrev pub list_row : RevocationList → RevocationListRecord
  list_row l = record {
    list_id = l.list_id;
    issuer_key_id = l.issuer_key_id;
    issued_at = l.issued_at;
    list_json = lists.encode l;
    supersedes = l.supersedes;
  }

  -- A first list supersedes nothing, every other one the head.
  abbrev pub extends_head : RevocationList → Option RevocationListRecord → Result (Unit {0})
  extends_head l head =
      if same_id l.supersedes (list_id_of head) then ok tt else err Error.revocation_chain_refused

  unfoldable pub record_revocation_list : RevocationList → Exec db RevocationListRecord
  record_revocation_list l = do
    reads (λ s. latest_revocation_list s l.issuer_key_id >>=ᵣ extends_head l)
    flush db (Row.revocation_list_record (list_row l) ∷ [])
    pure (list_row l)
