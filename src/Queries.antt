-- ===== src/Queries.antt =====
-- src/connect_governance/queries.py: reading the audit trail and the marketplace by one identifier.
pub mod Trail
pub mod Active
use connect_governance.Prelude.{
  String, Bool, true, false, ◌&&◌, Option, none, some, List, [], ◌∷◌, filter, any, ◌==◌,
}
use connect_governance.Schema.{
  DecisionRecord, ExecutionGrantRecord, ProviderListing, ProviderActivation,
}
use connect_governance.Store.{Database, Session}

-- An Optional column compared to a text: NULL equals none.
abbrev pub column_is : Option String → String → Bool
column_is none v = false
column_is (some w) v = w == v

-- scalars(...).first()
abbrev pub first_of : {A : Type 0} → List A → Option A
first_of [] = none
first_of (x ∷ xs) = some x

module _ {F : Type 0} (db : Database F) where
  abbrev pub grants_for_work_request : Session db → String → List ExecutionGrantRecord
  grants_for_work_request s work_request_id =
      filter (λ r. r.work_request_id == work_request_id)
        (db.execution_grant_records.scan s.execution_grant_records)

  abbrev pub decisions_for_work_request : Session db → String → List DecisionRecord
  decisions_for_work_request s work_request_id =
      filter (λ r. column_is r.work_request_id work_request_id)
        (db.decision_records.scan s.decision_records)

  abbrev pub grants_by_decision_record : Session db → String → List ExecutionGrantRecord
  grants_by_decision_record s decision_record_id =
      filter (λ r. r.decision_record_id == decision_record_id)
        (db.execution_grant_records.scan s.execution_grant_records)

  abbrev pub records_for_correlation :
      Session db → String → List DecisionRecord × List ExecutionGrantRecord
  records_for_correlation s correlation_id = (
    filter (λ r. column_is r.correlation_id correlation_id)
        (db.decision_records.scan s.decision_records),
    filter (λ r. column_is r.correlation_id correlation_id)
        (db.execution_grant_records.scan s.execution_grant_records),
  )

  abbrev pub list_listings : Session db → List ProviderListing
  list_listings s = db.provider_listings.scan s.provider_listings

  abbrev pub activations_for_listing : Session db → String → List ProviderActivation
  activations_for_listing s listing_id =
      filter (λ r. r.listing_id == listing_id) (db.provider_activations.scan s.provider_activations)

  -- The join: a listing's id is a primary key, so an activation has at most one listing.
  abbrev pub joins_provider : Session db → String → ProviderActivation → Bool
  joins_provider s provider_id r =
      any (λ l. r.listing_id == l.id && l.provider_id == provider_id)
        (db.provider_listings.scan s.provider_listings)

  unfoldable pub active_activation : Session db → String → Option ProviderActivation
  active_activation s provider_id = first_of (
      filter (λ r. joins_provider s provider_id r && r.state == "active")
        (db.provider_activations.scan s.provider_activations))
