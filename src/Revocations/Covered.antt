-- ===== src/Revocations/Covered.antt =====
-- `signed_bytes` of src/connect_governance/revocations.py, with the canonical form of the Kernel: the
-- bytes that a signature covers determine the list.
use connect_governance.Prelude.{
  String, false, ◌≡◌, refl, sym, ap, ◌∙◌, List, Option, none, some, [], ◌∷◌,
}
use connect_governance.Kernel.Timestamp.{codes}
use connect_governance.Canonical.{Text, mapping, sequence, value, to_plain}
use connect_governance.Canonical.Dumps.{arrange, canonical_json}
use connect_governance.Canonical.Loads.{FloatText}
use connect_governance.Canonical.Unique.{arrange-canonical_json}
use connect_governance.Canonical.Documents.{
  value_of, values_of, entries_of, text_value, text_values, option_value, option_same, list_same,
  at, as_text, codes_injective,
}
use connect_governance.Revocations.Types.{RevocationPayload}
use connect_governance.Revocations.Document.{payload_dump, text_items, text_or_null}

module _ {F : Type 0} where
  -- The document of a text or of null is that of the option.
  text_or_null_value : (o : Option String) → value_of {F = F} (text_or_null o) ≡ option_value o
  unfolding value_of
  text_or_null_value none = refl
  text_or_null_value (some s) = refl

  text_items_values : (ss : List String) → values_of {F = F} (text_items ss) ≡ text_values ss
  unfolding value_of
  text_items_values [] = refl
  text_items_values (s ∷ ss) = ap (λ vs. value (text_value s) vs) (text_items_values ss)

  link_same :
      (o p : Option String)
      → arrange {F = F} (to_plain codes (value_of (text_or_null o)))
        ≡ arrange (to_plain codes (value_of (text_or_null p)))
      → o ≡ p
  link_same o p h = option_same o p (
      ap (λ v. arrange (to_plain codes v)) (sym (text_or_null_value o))
      ∙ h
      ∙ ap (λ v. arrange (to_plain codes v)) (text_or_null_value p))

  ids_same :
      (ss ts : List String)
      → arrange {F = F} (to_plain codes (sequence false (values_of (text_items ss))))
        ≡ arrange (to_plain codes (sequence false (values_of (text_items ts))))
      → ss ≡ ts
  ids_same ss ts h = list_same ss ts (
      ap (λ v. arrange (to_plain codes (sequence false v))) (sym (text_items_values ss))
      ∙ h
      ∙ ap (λ v. arrange (to_plain codes (sequence false v))) (text_items_values ts))

module _ {F : Type 0} (floats : FloatText F) where
  -- The text of signed_bytes(revocation_list), before its encoding in UTF-8.
  unfoldable pub list_text : RevocationPayload → Text
  list_text p = canonical_json floats.repr codes (mapping (entries_of (payload_dump p)))

  -- Two revocation lists with the same signed text agree in every field but the signature: no grant can
  -- be taken off a signed list or put on it, and no other list can be named as the superseded one.
  pub list_text_injective : (p q : RevocationPayload) → list_text p ≡ list_text q → p ≡ q
  unfolding list_text arrange to_plain value_of
  list_text_injective p q e =
      let h =
        arrange-canonical_json floats codes (mapping (entries_of (payload_dump p)))
          (mapping (entries_of (payload_dump q))) e in
      let version =
        codes_injective p.revocation_list_format_version q.revocation_list_format_version
          (ap (λ v. as_text (at "revocation_list_format_version" v)) h) in
      let issuer =
        codes_injective p.issuer_key_id q.issuer_key_id
          (ap (λ v. as_text (at "issuer_key_id" v)) h) in
      let issued =
        codes_injective p.issued_at q.issued_at (ap (λ v. as_text (at "issued_at" v)) h) in
      let revoked =
        ids_same p.revoked_grant_ids q.revoked_grant_ids (ap (at "revoked_grant_ids") h) in
      let earlier = link_same p.supersedes q.supersedes (ap (at "supersedes") h) in
      let id = codes_injective p.list_id q.list_id (ap (λ v. as_text (at "list_id" v)) h) in
      let scheme =
        codes_injective p.signature_scheme q.signature_scheme
          (ap (λ v. as_text (at "signature_scheme" v)) h) in
      λ i. record {
        revocation_list_format_version = version i;
        issuer_key_id = issuer i;
        issued_at = issued i;
        revoked_grant_ids = revoked i;
        supersedes = earlier i;
        list_id = id i;
        signature_scheme = scheme i;
      }
