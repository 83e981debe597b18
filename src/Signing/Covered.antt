-- ===== src/Signing/Covered.antt =====
-- `signed_bytes` of src/connect_governance_grants/signing.py, with the canonical form of the Kernel: the
-- bytes that a signature covers determine every field of the payload.
use connect_governance.Prelude.{String, false, ◌≡◌, refl, ap, Option, none, some}
use connect_governance.Prelude.Int.{ℤ}
use connect_governance.Kernel.Json.{Fields}
use connect_governance.Kernel.Timestamp.{codes}
use connect_governance.Canonical.{
  Text, null, int, float, Plain, Value, model, mapping, sequence, other, no_fields, attribute,
  to_plain,
}
use connect_governance.Canonical.Dumps.{arrange, canonical_json}
use connect_governance.Canonical.Loads.{FloatText}
use connect_governance.Canonical.Unique.{Same, arrange-canonical_json, Same-of_arrange}
use connect_governance.Canonical.Documents.{
  entries_of, text_value, text_values, option_value, at, as_text, codes_injective, option_same,
  list_same,
}
use connect_governance.Signing.Types.{GrantPayload}

module _ {F : Type 0} where
  abbrev pub float_value : Option F → Value F String
  float_value none = other null
  float_value (some x) = other (float x)

  abbrev pub int_value : Option ℤ → Value F String
  int_value none = other null
  int_value (some n) = other (int n)

  float_same :
      (x y : Option F)
      → arrange (to_plain codes (float_value x)) ≡ arrange (to_plain codes (float_value y))
      → x ≡ y
  unfolding arrange to_plain
  float_same none none h = refl
  float_same none (some y) h = cc
  float_same (some x) none h = cc
  float_same (some x) (some y) h = cc

  int_same :
      (m n : Option ℤ)
      → arrange (to_plain codes (int_value m)) ≡ arrange (to_plain codes (int_value n))
      → m ≡ n
  unfolding arrange to_plain
  int_same none none h = refl
  int_same none (some n) h = cc
  int_same (some m) none h = cc
  int_same (some m) (some n) h = cc

  -- The document of a Mapping.
  abbrev pub plain_of : Fields F → Plain F
  plain_of fs = to_plain codes (mapping (entries_of fs))

-- payload, with model_dump(mode="json") in the order of the class.
abbrev pub payload_value : {F : Type 0} → GrantPayload F → Value F String
payload_value p = model (
    attribute (codes "grant_format_version") (text_value p.grant_format_version) (
      attribute (codes "grant_id") (text_value p.grant_id) (
        attribute (codes "decision_record_id") (text_value p.decision_record_id) (
          attribute (codes "work_request_id") (text_value p.work_request_id) (
            attribute (codes "work_request_revision") (option_value p.work_request_revision) (
              attribute (codes "requesting_principal_id") (text_value p.requesting_principal_id) (
                attribute (codes "organization_id") (text_value p.organization_id) (
                  attribute (codes "workspace_id") (text_value p.workspace_id) (
                    attribute (codes "provider_id") (text_value p.provider_id) (
                      attribute (codes "permitted_operations")
                        (sequence false (text_values p.permitted_operations))
                        (attribute (codes "argument_constraints")
                          (mapping (entries_of p.argument_constraints))
                          (attribute (codes "data_classifications")
                            (sequence false (text_values p.data_classifications))
                            (attribute (codes "budget_limit_usd") (float_value p.budget_limit_usd) (
                              attribute (codes "delegation_depth") (other (int p.delegation_depth))
                                (attribute (codes "delegation_max_depth")
                                  (int_value p.delegation_max_depth)
                                  (attribute (codes "policy_versions")
                                    (sequence false (text_values p.policy_versions))
                                    (attribute (codes "kernel_version")
                                      (text_value p.kernel_version)
                                      (attribute (codes "not_before") (option_value p.not_before) (
                                        attribute (codes "not_after") (option_value p.not_after) (
                                          attribute (codes "revocation_state") (text_value "active")
                                            (attribute (codes "issued_at") (text_value p.issued_at)
                                              (attribute (codes "issuer_key_id")
                                                (text_value p.issuer_key_id)
                                                (attribute (codes "correlation_id")
                                                  (option_value p.correlation_id)
                                                  (no_fields))))))))))))))))))))))))

-- Every field is the same; the constraints on arguments are so up to the order of their keys.
pub record SamePayload {F : Type 0} (p q : GrantPayload F) : Type 0 where
  pub grant_format_version : p.grant_format_version ≡ q.grant_format_version
  pub grant_id : p.grant_id ≡ q.grant_id
  pub decision_record_id : p.decision_record_id ≡ q.decision_record_id
  pub work_request_id : p.work_request_id ≡ q.work_request_id
  pub work_request_revision : p.work_request_revision ≡ q.work_request_revision
  pub requesting_principal_id : p.requesting_principal_id ≡ q.requesting_principal_id
  pub organization_id : p.organization_id ≡ q.organization_id
  pub workspace_id : p.workspace_id ≡ q.workspace_id
  pub provider_id : p.provider_id ≡ q.provider_id
  pub permitted_operations : p.permitted_operations ≡ q.permitted_operations
  pub argument_constraints :
      Same (plain_of p.argument_constraints) (plain_of q.argument_constraints)
  pub data_classifications : p.data_classifications ≡ q.data_classifications
  pub budget_limit_usd : p.budget_limit_usd ≡ q.budget_limit_usd
  pub delegation_depth : p.delegation_depth ≡ q.delegation_depth
  pub delegation_max_depth : p.delegation_max_depth ≡ q.delegation_max_depth
  pub policy_versions : p.policy_versions ≡ q.policy_versions
  pub kernel_version : p.kernel_version ≡ q.kernel_version
  pub not_before : p.not_before ≡ q.not_before
  pub not_after : p.not_after ≡ q.not_after
  pub issued_at : p.issued_at ≡ q.issued_at
  pub issuer_key_id : p.issuer_key_id ≡ q.issuer_key_id
  pub correlation_id : p.correlation_id ≡ q.correlation_id

module _ {F : Type 0} (floats : FloatText F) where
  -- The text of signed_bytes(payload), before its encoding in UTF-8.
  unfoldable pub signed_text : GrantPayload F → Text
  signed_text payload = canonical_json floats.repr codes (payload_value payload)

  -- Two payloads with the same signed text agree in every field: nothing in a payload can be changed
  -- under a signature. `argument_constraints` agrees as a JSON object, whose keys have no order. No
  -- float is infinite or a NaN, and the text of a float reads as that float.
  pub signed_text-SamePayload :
      (p q : GrantPayload F) → signed_text p ≡ signed_text q → SamePayload p q
  unfolding signed_text arrange to_plain
  signed_text-SamePayload p q e =
      let h = arrange-canonical_json floats codes (payload_value p) (payload_value q) e in
      record {
        grant_format_version =
            codes_injective p.grant_format_version q.grant_format_version
              (ap (λ v. as_text (at "grant_format_version" v)) h);
        grant_id = codes_injective p.grant_id q.grant_id (ap (λ v. as_text (at "grant_id" v)) h);
        decision_record_id =
            codes_injective p.decision_record_id q.decision_record_id
              (ap (λ v. as_text (at "decision_record_id" v)) h);
        work_request_id =
            codes_injective p.work_request_id q.work_request_id
              (ap (λ v. as_text (at "work_request_id" v)) h);
        work_request_revision =
            option_same p.work_request_revision q.work_request_revision
              (ap (at "work_request_revision") h);
        requesting_principal_id =
            codes_injective p.requesting_principal_id q.requesting_principal_id
              (ap (λ v. as_text (at "requesting_principal_id" v)) h);
        organization_id =
            codes_injective p.organization_id q.organization_id
              (ap (λ v. as_text (at "organization_id" v)) h);
        workspace_id =
            codes_injective p.workspace_id q.workspace_id
              (ap (λ v. as_text (at "workspace_id" v)) h);
        provider_id =
            codes_injective p.provider_id q.provider_id (ap (λ v. as_text (at "provider_id" v)) h);
        permitted_operations =
            list_same p.permitted_operations q.permitted_operations
              (ap (at "permitted_operations") h);
        argument_constraints =
            Same-of_arrange codes (mapping (entries_of p.argument_constraints))
              (mapping (entries_of q.argument_constraints)) (ap (at "argument_constraints") h);
        data_classifications =
            list_same p.data_classifications q.data_classifications
              (ap (at "data_classifications") h);
        budget_limit_usd =
            float_same p.budget_limit_usd q.budget_limit_usd (ap (at "budget_limit_usd") h);
        delegation_depth = cc (ap (at "delegation_depth") h);
        delegation_max_depth =
            int_same p.delegation_max_depth q.delegation_max_depth
              (ap (at "delegation_max_depth") h);
        policy_versions =
            list_same p.policy_versions q.policy_versions (ap (at "policy_versions") h);
        kernel_version =
            codes_injective p.kernel_version q.kernel_version
              (ap (λ v. as_text (at "kernel_version" v)) h);
        not_before = option_same p.not_before q.not_before (ap (at "not_before") h);
        not_after = option_same p.not_after q.not_after (ap (at "not_after") h);
        issued_at =
            codes_injective p.issued_at q.issued_at (ap (λ v. as_text (at "issued_at" v)) h);
        issuer_key_id =
            codes_injective p.issuer_key_id q.issuer_key_id
              (ap (λ v. as_text (at "issuer_key_id" v)) h);
        correlation_id = option_same p.correlation_id q.correlation_id (ap (at "correlation_id") h);
      }
