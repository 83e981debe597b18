-- ===== src/Providers.antt =====
-- src/connect_governance/providers.py: curated listings, and the governed activation of a provider.
pub mod Curated
pub mod Activation
use connect_governance.Prelude.{
  String, Bool, true, false, not, ◌&&◌, Option, none, some, List, [], ◌∷◌, ◌==◌, if◌then◌else◌,
  Error,
}
use connect_governance.Kernel.Json.{Json, Items, Fields}
use connect_governance.Kernel.Types.{Transition, DecisionRequest, Decision, outcome_value}
use connect_governance.Kernel.Evidence.{Host}
use connect_governance.Codec.{Codecs}
use connect_governance.Schema.{ProviderListing, ProviderActivation}
use connect_governance.Store.{Database, Session, Row, Exec, pure, raise, reads, flush, ◌>>=◌, ◌>>◌}
use connect_governance.Resolution.{Facts, build_decision_request}
use connect_governance.Decisions.{evaluate_and_record}

abbrev pub list_required_authority : String
list_required_authority = "provider.list"

abbrev pub required_authority : String
required_authority = "provider.activate"

-- The keyword arguments of `create_listing`.
pub record ListingArguments (F : Type 0) : Type 0 where
  pub listing_id : String
  pub provider_id : String
  pub name : String
  pub metadata : Fields F
  pub enforcement_classification : String
  -- A Mapping or a Sequence
  pub classification_evidence : Json F
  pub listed_by_principal_id : String
  pub transition_id : String
  pub decision_record_id : String
  pub recorded_at : String
  pub correlation_id : Option String

-- The keyword arguments of `activate_provider`.
pub record ActivationArguments : Type 0 where
  pub activation_id : String
  pub listing_id : String
  pub activated_by_principal_id : String
  pub transition_id : String
  pub decision_record_id : String
  pub recorded_at : String
  pub correlation_id : Option String

-- `not value`, for a Mapping or a Sequence; a text is a Sequence, a number is none.
unfoldable pub is_falsy : {F : Type 0} → Json F → Bool
is_falsy (Json.str text) = text == ""
is_falsy (Json.obj Fields.end) = true
is_falsy (Json.arr Items.nil) = true
is_falsy _ = false

-- An enforcing classification without evidence.
unfoldable pub lacks_evidence : {F : Type 0} → ListingArguments F → Bool
unfolding is_falsy
lacks_evidence a = a.enforcement_classification == "enforcing" && is_falsy a.classification_evidence

abbrev pub listing_transition : {F : Type 0} → ListingArguments F → Transition F
listing_transition a = record {
  transition_id = a.transition_id;
  transition_type = "CreateProviderListing";
  proposed_by_principal_id = a.listed_by_principal_id;
  target_type = "ProviderListing";
  target_id = some a.listing_id;
  operation = "create";
  claims = Fields.field "enforcement_classification" (Json.str a.enforcement_classification) (
      Fields.field "listing_id" (Json.str a.listing_id)
        (Fields.field "provider_id" (Json.str a.provider_id) Fields.end));
  expected_state_revision = none;
}

abbrev pub activation_transition : {F : Type 0} → ActivationArguments → Transition F
activation_transition a = record {
  transition_id = a.transition_id;
  transition_type = "ActivateProvider";
  proposed_by_principal_id = a.activated_by_principal_id;
  target_type = "ProviderListing";
  target_id = some a.listing_id;
  operation = "activate";
  claims =
      Fields.field "activation_id" (Json.str a.activation_id)
        (Fields.field "listing_id" (Json.str a.listing_id) Fields.end);
  expected_state_revision = none;
}

abbrev pub only_correlation : {F : Type 0} → Option String → Facts F
only_correlation correlation_id = record {
  work_request_id = none;
  policy_versions = [];
  constraints = [];
  classifications = none;
  cumulative_state = none;
  delegation = none;
  correlation_id = correlation_id;
}

abbrev pub new_activation : ActivationArguments → ProviderActivation
new_activation a = record {
  id = a.activation_id;
  listing_id = a.listing_id;
  decision_record_id = a.decision_record_id;
  state = "active";
  recorded_at = a.recorded_at;
  provenance = a.transition_id;
}

module _ {F : Type 0} (host : Host F) (codecs : Codecs F) (db : Database F) where
  abbrev pub new_listing : ListingArguments F → ProviderListing
  new_listing a = record {
    id = a.listing_id;
    provider_id = a.provider_id;
    name = a.name;
    metadata_json = codecs.canonical_document (Json.obj a.metadata);
    enforcement_classification = a.enforcement_classification;
    classification_evidence_json = codecs.canonical_document a.classification_evidence;
    recorded_at = a.recorded_at;
    provenance = a.transition_id;
  }

  unfoldable pub list_if_allowed : ListingArguments F → Decision → Exec db ProviderListing
  unfolding outcome_value
  list_if_allowed a decision =
      if outcome_value decision.outcome == "Allowed"
      then (flush db (Row.provider_listing (new_listing a) ∷ []) >> pure (new_listing a))
      else raise Error.listing_refused

  unfoldable pub evaluate_listing : ListingArguments F → Exec db ProviderListing
  evaluate_listing a = do
    request ← reads (λ s.
        build_decision_request db codecs.keys s (listing_transition a) list_required_authority
          a.recorded_at (only_correlation a.correlation_id))
    decided ← evaluate_and_record host codecs db a.decision_record_id request a.recorded_at none
    list_if_allowed a decided.0

  unfoldable pub create_listing : ListingArguments F → Exec db ProviderListing
  create_listing a s =
      if lacks_evidence a then raise Error.listing_refused s else evaluate_listing a s

  unfoldable pub activate_if_allowed : ActivationArguments → Decision → Exec db ProviderActivation
  unfolding outcome_value
  activate_if_allowed a decision =
      if outcome_value decision.outcome == "Allowed"
      then (flush db (Row.provider_activation (new_activation a) ∷ []) >> pure (new_activation a))
      else raise Error.activation_refused

  unfoldable pub evaluate_activation : ActivationArguments → Exec db ProviderActivation
  evaluate_activation a = do
    request ← reads (λ s.
        build_decision_request db codecs.keys s (activation_transition a) required_authority
          a.recorded_at (only_correlation a.correlation_id))
    decided ← evaluate_and_record host codecs db a.decision_record_id request a.recorded_at none
    activate_if_allowed a decided.0

  unfoldable pub activate_provider : ActivationArguments → Exec db ProviderActivation
  activate_provider a s = elim (db.provider_listings.get s.provider_listings a.listing_id) [
    | none ↦ raise Error.activation_refused s
    | some listing ↦ evaluate_activation a s
  ]
