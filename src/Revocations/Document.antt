-- ===== src/Revocations/Document.antt =====
-- `verify_revocation_list` of a Mapping, as a party has it that only holds the JSON document.
use connect_governance.Prelude.{
  String, ◌≡◌, refl, Bool, false, Option, none, some, List, [], ◌∷◌, ◌==◌, if◌then◌else◌, Result,
  ok, ◌>>=◌,
}
use connect_governance.Kernel.Json.{Json, Items, Fields}
use connect_governance.Signing.{signature_scheme, utf8, signature_is_valid, id_differs}
use connect_governance.Signing.Scheme.{Crypto}
use connect_governance.Revocations.Types.{
  RevocationList, RevocationPayload, RevocationListVerification,
}
use connect_governance.Revocations.{
  revocation_list_format_version, payload_dict, conclude_list, verify_revocation_list,
}

module _ {F : Type 0} where
  -- doc.get(key)
  abbrev pub field_at : String → Fields F → Option (Json F)
  field_at key Fields.end = none
  field_at key (Fields.field k v rest) =
      let later = field_at key rest in if k == key then some v else later

  -- {k: v for k, v in dump.items() if k != "signature"}
  abbrev pub without_signature : Fields F → Fields F
  without_signature Fields.end = Fields.end
  without_signature (Fields.field k v rest) =
      let later = without_signature rest in
      if k == "signature" then later else Fields.field k v later

  -- value == text, for a value that may be missing
  abbrev pub value_is : Option (Json F) → String → Bool
  value_is (some (Json.str t)) text = t == text
  value_is _ text = false

  abbrev pub text_items : List String → Items F
  text_items [] = Items.nil
  text_items (t ∷ ts) = Items.cons (Json.str t) (text_items ts)

  abbrev pub text_or_null : Option String → Json F
  text_or_null none = Json.null
  text_or_null (some t) = Json.str t

  abbrev payload_before : RevocationPayload → Fields F → Fields F
  payload_before p rest =
      Fields.field "revocation_list_format_version" (Json.str p.revocation_list_format_version) (
        Fields.field "issuer_key_id" (Json.str p.issuer_key_id) (
          Fields.field "issued_at" (Json.str p.issued_at) (
            Fields.field "revoked_grant_ids" (Json.arr (text_items p.revoked_grant_ids)) (
              Fields.field "supersedes" (text_or_null p.supersedes) (
                Fields.field "list_id" (Json.str p.list_id)
                  (Fields.field "signature_scheme" (Json.str p.signature_scheme) rest))))))

  -- revocation_list.model_dump(), and the same without its signature
  abbrev pub model_dump : RevocationList → Fields F
  model_dump l =
      payload_before (payload_dict l) (Fields.field "signature" (Json.str l.signature) Fields.end)

  abbrev pub payload_dump : RevocationPayload → Fields F
  payload_dump p = payload_before p Fields.end

  -- `str` is Python's, `canonical_document` is canonical_json of a dict.
  module _ (crypto : Crypto) (str : Json F → String) (canonical_document : Fields F → String) where
    -- str(doc.get(key, ""))
    abbrev pub text_at : String → Fields F → String
    text_at key doc = elim (field_at key doc) [ none ↦ "" | some v ↦ str v ]

    unfoldable pub verify_document :
        Fields F
        → (public_key_pem : String) → (expected_key_id : Option String)
        → Result RevocationListVerification
    verify_document revocation_list public_key_pem expected_key_id =
        let doc = without_signature revocation_list in
        signature_is_valid crypto (text_at "signature_scheme" doc) public_key_pem
          (text_at "signature" revocation_list) (utf8 (canonical_document doc))
        >>= λ signature_valid. ok (
            conclude_list
              (value_is (field_at "revocation_list_format_version" doc)
                revocation_list_format_version)
              (id_differs expected_key_id (text_at "issuer_key_id" doc))
              (text_at "signature_scheme" doc == signature_scheme) signature_valid
              (text_at "issuer_key_id" doc) (text_at "list_id" doc))

    -- The Mapping that a list dumps to is checked exactly as the list is, whatever its fields, the key
    -- and the expected issuer are: the same result, or the same exception. `str` of a text is the text,
    -- and the canonical text of the list without its signature is that of the dict without it.
    pub verify_document-model_dump :
        (l : RevocationList) (pem : String) (expected : Option String)
        → ((t : String) → str (Json.str t) ≡ t)
        → verify_document (model_dump l) pem expected
          ≡ verify_revocation_list crypto (λ p. canonical_document (payload_dump p)) l pem expected
    unfolding verify_document verify_revocation_list
    verify_document-model_dump l pem expected h =
        rw (h l.signature_scheme, h l.signature, h l.issuer_key_id, h l.list_id) refl
