-- ===== src/Samples/RevocationRuns.antt =====
-- A list and its successor, put to the store; a fork of the chain is refused.
use connect_governance.Prelude.{
  ℕ, String, ◌≡◌, ◌↔◌, refl, true, false, Option, none, some, [], ◌∷◌, Error, ok, err,
}
use connect_governance.Codec.{Codec}
use connect_governance.Schema.{RevocationListRecord, ProviderActivation}
use connect_governance.Store.{Session, add, add_all, flush}
use connect_governance.Base64.{
  nth_char, symbol, urlsafe_b64encode, drop_padding, rstrip_padding, b64e, symbol_value, a2b_base64,
  b64d,
}
use connect_governance.Signing.{
  utf8, public_key_id, signing_key, check_signature, signature_is_valid,
}
use connect_governance.Signing.Verify.{IsNamed}
use connect_governance.Revocations.{
  lists_of, latest_revocation_list, list_row, record_revocation_list, build_revocation_list,
  verify_revocation_list,
}
use connect_governance.Revocations.Types.{
  RevocationList, RevocationPayload, RevocationListVerification,
}
use connect_governance.Revocations.Verify.{
  IsGenuine, IsValidFor, verify_revocation_list-eq-ok, build_revocation_list_verifies,
}
use connect_governance.Kernel.Json.{Json, Fields}
use connect_governance.Revocations.Document.{
  text_at, model_dump, payload_dump, verify_document, verify_document-model_dump,
}
use connect_governance.Revocations.Chain.{Chain}
use connect_governance.Revocations.History.{
  Stored, Ending, latest_revocation_list-Chain, record_revocation_list_cases,
}
use connect_governance.Queries.{active_activation}
use connect_governance.Samples.Store.{sample_db, no_rows, codec_for}
use connect_governance.Samples.Keys.{toy_crypto}

abbrev canonical : RevocationPayload → String
canonical payload = payload.list_id

abbrev first_list : RevocationList
first_list = record {
  revocation_list_format_version = "1";
  issuer_key_id = "ed25519:00";
  issued_at = "120Z";
  revoked_grant_ids = "grant-1" ∷ [];
  supersedes = none;
  list_id = "list-1";
  signature_scheme = "Ed25519";
  signature = "Bg";
}

abbrev second_list : RevocationList
second_list = record first_list { supersedes = some "list-1"; list_id = "list-2" }

-- It names the first list again, which is the head no more.
abbrev fork : RevocationList
fork = record first_list { supersedes = some "list-1"; list_id = "list-3" }

builds :
    build_revocation_list toy_crypto canonical "list-1" "ed25519:00" "120Z"
      ("grant-1" ∷ [])
      none
      "private"
    ≡ ok first_list
unfolding build_revocation_list signing_key public_key_id utf8 b64e urlsafe_b64encode rstrip_padding
    drop_padding symbol nth_char
builds = refl

abbrev good_list : RevocationListVerification
good_list = record {
  valid = true;
  signature_valid = true;
  failure_codes = [];
  issuer_key_id = "ed25519:00";
  list_id = "list-1";
}

verifies :
    verify_revocation_list toy_crypto canonical first_list "public" (some "ed25519:00")
    ≡ ok good_list
unfolding verify_revocation_list signature_is_valid check_signature utf8 b64d a2b_base64
    symbol_value
verifies = refl

-- Another issuer is expected, and the format is unknown.
reports :
    verify_revocation_list toy_crypto canonical
      (record first_list { revocation_list_format_version = "2" })
      "public"
      (some "ed25519:11")
    ≡ ok (record good_list {
      valid = false;
      failure_codes = "unsupported_format_version" ∷ "key_id_mismatch" ∷ [];
    })
unfolding verify_revocation_list signature_is_valid check_signature utf8 b64d a2b_base64
    symbol_value
reports = refl

verify_revocation_list-eq-ok_test :
    ((true ≡ true) ↔ IsGenuine toy_crypto canonical first_list "public")
    × ((true ≡ true) ↔ (
        (first_list.revocation_list_format_version ≡ "1")
        × IsNamed (some "ed25519:00") "ed25519:00"
        × IsGenuine toy_crypto canonical first_list "public"))
verify_revocation_list-eq-ok_test =
    verify_revocation_list-eq-ok toy_crypto canonical first_list "public" (some "ed25519:00")
      verifies

build_revocation_list_verifies_example :
    IsValidFor toy_crypto canonical "private" "ed25519:00" first_list
build_revocation_list_verifies_example =
    build_revocation_list_verifies toy_crypto canonical "list-1" "ed25519:00" "120Z"
      ("grant-1" ∷ []) none "private" builds

-- `str` of a text, and a text that tells the documents of the samples apart.
abbrev str : Json ℕ → String
str (Json.str t) = t
str v = "?"

abbrev canonical_document : Fields ℕ → String
canonical_document doc = text_at toy_crypto str (λ d. "") "list_id" doc

verify_document-model_dump_example :
    verify_document toy_crypto str canonical_document
      (model_dump first_list)
      "public"
      (some "ed25519:00")
    ≡ verify_revocation_list toy_crypto
        (λ p. canonical_document (payload_dump p))
        first_list
        "public"
        (some "ed25519:00")
verify_document-model_dump_example =
    verify_document-model_dump toy_crypto str canonical_document first_list "public"
      (some "ed25519:00") (λ t. refl)

abbrev lists : Codec RevocationList
lists = codec_for "list" first_list

abbrev once : Session sample_db
once = (record_revocation_list lists sample_db first_list no_rows).1

abbrev twice : Session sample_db
twice = (record_revocation_list lists sample_db second_list once).1

stored : Stored lists sample_db twice
stored = Stored.put second_list (Stored.put first_list (Stored.start refl))

second_is_latest :
    latest_revocation_list lists sample_db twice "ed25519:00"
    ≡ ok (some (list_row lists sample_db second_list))
unfolding latest_revocation_list record_revocation_list add add_all flush
second_is_latest = refl

fork_is_refused :
    record_revocation_list lists sample_db fork twice ≡ (err Error.revocation_chain_refused, twice)
unfolding latest_revocation_list record_revocation_list add add_all flush
fork_is_refused = refl

latest_revocation_list-Chain_example :
    (head : Option RevocationListRecord) × Chain head (lists_of lists sample_db "ed25519:00" twice)
    × (latest_revocation_list lists sample_db twice "ed25519:00" ≡ ok head)
latest_revocation_list-Chain_example =
    latest_revocation_list-Chain lists sample_db "ed25519:00" stored

record_revocation_list_cases_example :
    (head : Option RevocationListRecord) × (latest_revocation_list lists sample_db twice
        "ed25519:00"
      ≡ ok head)
    × Ending lists sample_db fork twice head (record_revocation_list lists sample_db fork twice)
record_revocation_list_cases_example = record_revocation_list_cases lists sample_db fork stored

abbrev revoked : ProviderActivation
revoked = record {
  id = "activation-1";
  listing_id = "listing-1";
  decision_record_id = "rec-1";
  state = "revoked";
  recorded_at = "120Z";
  provenance = "t-2";
}

abbrev current : ProviderActivation
current = record revoked { id = "activation-2"; state = "active" }

-- Two activations of a provider's listing, of which the first was revoked.
abbrev activated : Session sample_db
activated = record no_rows {
  provider_listings =
      record {
        id = "listing-1";
        provider_id = "provider-1";
        name = "Provider";
        metadata_json = "document";
        enforcement_classification = "monitor_only";
        classification_evidence_json = "document";
        recorded_at = "120Z";
        provenance = "t-1";
      }
      ∷ [];
  provider_activations = revoked ∷ current ∷ [];
}

finds_current : active_activation sample_db activated "provider-1" ≡ some current
unfolding active_activation
finds_current = refl
