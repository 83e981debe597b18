-- ===== src/Samples/ProviderRuns.antt =====
-- An operator lists a provider and activates it.
use connect_governance.Prelude.{ℕ, ◌≡◌, ◌≢◌, ◌⊎◌, refl, true, none, some, [], ◌∷◌, ok}
use connect_governance.Kernel.Json.{Json, Items, Fields}
use connect_governance.Kernel.Types.{outcome_value, reason_value}
use connect_governance.Kernel.Timestamp.{
  is_space, lstrip, strip, normalize_zulu, require_offset, parse_rfc3339,
}
use connect_governance.Kernel.Evidence.{elem_code}
use connect_governance.Kernel.Authority.{
  bound_test, authority_is_effective, assess, authority, note_candidate, conclude_authority,
  ineffective_codes,
}
use connect_governance.Kernel.Evaluate.{
  structural, principal, delegation, delegation_checks, constrain, constrain_all, conclude,
  evaluate, approval, outcome_of, final_reasons,
}
use connect_governance.Codec.{Codecs}
use connect_governance.Schema.{DecisionRecord, ProviderListing}
use connect_governance.Store.{Session, add, add_all, flush}
use connect_governance.Store.Growth.{HasRecord}
use connect_governance.Resolution.{
  agent_is_active, evidence_of, evidence_of_all, principal_is_active, resolve_authority_evidence,
  build_decision_request,
}
use connect_governance.Resolution.Grounds.{IsGranted}
use connect_governance.Decisions.{decision_row, record_decision, evaluate_and_record}
use connect_governance.Providers.{
  ListingArguments, ActivationArguments, is_falsy, lacks_evidence, new_listing, new_activation,
  list_if_allowed, activate_if_allowed, evaluate_listing, evaluate_activation, create_listing,
  activate_provider,
}
use connect_governance.Providers.Activation.{
  IsEvidence, create_listing-eq-ok, activate_provider-eq-ok,
}
use connect_governance.Samples.{sample_host}
use connect_governance.Samples.Store.{sample_db, no_rows, sample_codecs, codec_for}
use connect_governance.Samples.Requests.{sample_request, sample_decision}

abbrev codecs : Codecs ℕ
codecs = record (sample_codecs sample_request sample_decision) {
  keys = codec_for "keys" ("provider.list" ∷ "provider.activate" ∷ []);
}

-- The operator holds both keys.
abbrev pub operated : Session sample_db
operated = record no_rows {
  persons =
      record {
        id = "olga";
        display_name = "Olga";
        active = true;
        recorded_at = "100Z";
        provenance = "genesis";
      }
      ∷ [];
  authority_relationships =
      record {
        id = "auth-9";
        relationship_type = "Grant";
        principal_id = "olga";
        target_id = "org-1";
        granted_authorities = "keys";
        effective_from = some "100Z";
        effective_until = some "200Z";
        revoked_at = none;
        recorded_at = "100Z";
        provenance = "t-0";
      }
      ∷ [];
}

abbrev listing_arguments : ListingArguments ℕ
listing_arguments = record {
  listing_id = "listing-1";
  provider_id = "provider-1";
  name = "Provider";
  metadata = Fields.end;
  enforcement_classification = "enforcing";
  classification_evidence = Json.arr (Items.cons (Json.str "vectors") Items.nil);
  listed_by_principal_id = "olga";
  transition_id = "t-1";
  decision_record_id = "rec-1";
  recorded_at = "120Z";
  correlation_id = none;
}

abbrev activation_arguments : ActivationArguments
activation_arguments = record {
  activation_id = "activation-1";
  listing_id = "listing-1";
  activated_by_principal_id = "olga";
  transition_id = "t-2";
  decision_record_id = "rec-2";
  recorded_at = "121Z";
  correlation_id = none;
}

abbrev listed : Session sample_db
listed = (create_listing sample_host codecs sample_db listing_arguments operated).1

abbrev activated : Session sample_db
activated = (activate_provider sample_host codecs sample_db activation_arguments listed).1

lists :
    create_listing sample_host codecs sample_db listing_arguments operated
    ≡ (ok (new_listing sample_host codecs sample_db listing_arguments), listed)
unfolding evaluate structural principal authority assess bound_test authority_is_effective
    delegation delegation_checks constrain constrain_all approval conclude outcome_of final_reasons
    note_candidate conclude_authority elem_code outcome_value reason_value ineffective_codes
    parse_rfc3339 is_space lstrip strip normalize_zulu require_offset add add_all flush
    agent_is_active evidence_of evidence_of_all principal_is_active resolve_authority_evidence
    build_decision_request decision_row record_decision evaluate_and_record is_falsy lacks_evidence
    list_if_allowed activate_if_allowed evaluate_listing evaluate_activation create_listing
    activate_provider
lists = refl

activates :
    activate_provider sample_host codecs sample_db activation_arguments listed
    ≡ (ok (new_activation activation_arguments), activated)
unfolding evaluate structural principal authority assess bound_test authority_is_effective
    delegation delegation_checks constrain constrain_all approval conclude outcome_of final_reasons
    note_candidate conclude_authority elem_code outcome_value reason_value ineffective_codes
    parse_rfc3339 is_space lstrip strip normalize_zulu require_offset add add_all flush
    agent_is_active evidence_of evidence_of_all principal_is_active resolve_authority_evidence
    build_decision_request decision_row record_decision evaluate_and_record is_falsy lacks_evidence
    list_if_allowed activate_if_allowed evaluate_listing evaluate_activation create_listing
    activate_provider
activates = refl

create_listing-eq-ok_example :
    (new_listing sample_host codecs sample_db listing_arguments
      ≡ new_listing sample_host codecs sample_db listing_arguments)
    × ((listing_arguments.enforcement_classification ≢ "enforcing")
        ⊎ IsEvidence listing_arguments.classification_evidence)
    × (principal_is_active sample_db operated "olga" ≡ true)
    × IsGranted sample_host sample_db codecs.keys operated "olga" "provider.list" "120Z"
    × (sample_db.provider_listings.get listed.provider_listings "listing-1"
        ≡ some (new_listing sample_host codecs sample_db listing_arguments))
create_listing-eq-ok_example =
    create_listing-eq-ok sample_host codecs sample_db listing_arguments operated lists

activate_provider-eq-ok_example :
    (new_activation activation_arguments ≡ new_activation activation_arguments)
    × ((listing : ProviderListing) × (sample_db.provider_listings.get listed.provider_listings
            "listing-1"
          ≡ some listing))
    × (principal_is_active sample_db listed "olga" ≡ true)
    × IsGranted sample_host sample_db codecs.keys listed "olga" "provider.activate" "121Z"
    × (sample_db.provider_activations.get activated.provider_activations "activation-1"
        ≡ some (new_activation activation_arguments))
    × ((row : DecisionRecord) × HasRecord sample_db "rec-2" row activated
        × (row.outcome ≡ "Allowed"))
activate_provider-eq-ok_example =
    activate_provider-eq-ok sample_host codecs sample_db activation_arguments listed activates
