-- ===== src/Queries/Active.antt =====
-- Which activation `active_activation` returns, and when there is none.
use connect_governance.Prelude.{String, ◌≡◌, Bool, ◌&&◌, Any, ◌==◌}
use connect_governance.Schema.{ProviderListing, ProviderActivation}
use connect_governance.Store.{Database, Session}
use connect_governance.Queries.{joins_provider}

module _ {F : Type 0} (db : Database F) (s : Session db) (provider_id : String) where
  -- The activation is active, and its listing names the provider.
  abbrev pub Serves : ProviderActivation → Type 0
  Serves r =
      Any (λ (l : ProviderListing). (r.listing_id ≡ l.id) × (l.provider_id ≡ provider_id))
        (db.provider_listings.scan s.provider_listings)
      × (r.state ≡ "active")

  serves : ProviderActivation → Bool
  serves r = joins_provider db s provider_id r && r.state == "active"
