-- ===== src/Providers/Activation.antt =====
-- What a listing and an activation that returned rest on, and the rows that they leave.
use connect_governance.Prelude.{
  ◌≡◌, ◌≢◌, ◌⊎◌, eq_iff, ◌==◌, refl, ap, subst, true, false, none, some, [], ◌∷◌, arith, Error, ok,
  Option-cases, Bool-cases, inl, inr, eq_refl,
}
use connect_governance.Kernel.Json.{Json, Items, Fields}
use connect_governance.Kernel.Types.{outcome_value}
use connect_governance.Kernel.Evidence.{Host}
use connect_governance.Codec.{Codecs}
use connect_governance.Schema.{DecisionRecord, ProviderListing, ProviderActivation}
use connect_governance.Store.{Database, Session, Row, add}
use connect_governance.Store.Laws.{get-insert_self, text_same}
use connect_governance.Store.Growth.{
  put_back_view, add_of_add_all, Grown, same, more, Grown_of_add_all, HasRecord, HasRecord_of_add,
  Grown-HasRecord,
}
use connect_governance.Resolution.{principal_is_active}
use connect_governance.Resolution.Grounds.{IsGranted}
use connect_governance.Decisions.{decision_row}
use connect_governance.Decisions.Recording.{evaluate_and_record-eq-ok}
use connect_governance.Providers.{
  ListingArguments, ActivationArguments, is_falsy, lacks_evidence, listing_transition,
  activation_transition, new_listing, new_activation, list_if_allowed, activate_if_allowed,
  evaluate_listing, evaluate_activation, create_listing, activate_provider, list_required_authority,
  required_authority,
}
use connect_governance.Providers.Curated.{if_allowed-eq-ok, grounds, act-eq-ok}

-- Evidence is there: a text, a Mapping or a Sequence that is not empty.
abbrev pub IsEvidence : {F : Type 0} → Json F → Type 0
IsEvidence (Json.str text) = text ≢ ""
IsEvidence (Json.obj fields) = fields ≢ Fields.end
IsEvidence (Json.arr items) = items ≢ Items.nil
IsEvidence _ = Unit

evident : {F : Type 0} (v : Json F) → is_falsy v ≡ false → IsEvidence v
unfolding is_falsy
evident (Json.str text) h = λ e. cc ((eq_iff text "").1 e)
evident (Json.obj Fields.end) h = cc
evident (Json.obj (Fields.field k v rest)) h = λ e. cc
evident (Json.arr Items.nil) h = cc
evident (Json.arr (Items.cons v rest)) h = λ e. cc
evident _ h = tt

-- What passes the guard declares another classification, or has evidence.
supported :
    {F : Type 0} (a : ListingArguments F)
    → lacks_evidence a ≡ false
    → (a.enforcement_classification ≢ "enforcing") ⊎ IsEvidence a.classification_evidence
unfolding lacks_evidence
supported a h = elim (Bool-cases (a.enforcement_classification == "enforcing")) [
  | inl e ↦ inr (evident a.classification_evidence (ground arith))
  | inr e ↦ inl (λ same. cc ((eq_iff a.enforcement_classification "enforcing").1 same))
]

module _ {F : Type 0} (host : Host F) (codecs : Codecs F) (db : Database F) where
  add_listing :
      (row : ProviderListing) (s : Session db) {u : Session db}
      → add db (Row.provider_listing row) s ≡ some u
      → db.provider_listings.get u.provider_listings row.id ≡ some row
  unfolding add
  add_listing row s h =
      put_back_view _ (db.provider_listings.insert row s.provider_listings)
        (λ (w : Session db). db.provider_listings.get w.provider_listings row.id)
        (λ u e.
          get-insert_self db.provider_listings text_same (λ rows r a. ground arith) row
            s.provider_listings (eq_refl row.id) e)
        h

  add_activation :
      (row : ProviderActivation) (s : Session db) {u : Session db}
      → add db (Row.provider_activation row) s ≡ some u
      → db.provider_activations.get u.provider_activations row.id ≡ some row
  unfolding add
  add_activation row s h =
      put_back_view _ (db.provider_activations.insert row s.provider_activations)
        (λ (w : Session db). db.provider_activations.get w.provider_activations row.id)
        (λ u e.
          get-insert_self db.provider_activations text_same (λ rows r a. ground arith) row
            s.provider_activations (eq_refl row.id) e)
        h

  -- If `create_listing` returned, it returned the listing of its arguments, which declares another
  -- classification than "enforcing" or has evidence: a Mapping with an item, a Sequence with one, or a
  -- text with a character; the listing principal was active and a row granted it
  -- "provider.list", in force at the recording; and the listing is found under its id.
  pub create_listing-eq-ok :
      (a : ListingArguments F) (s : Session db) {l : ProviderListing} {u : Session db}
      → create_listing host codecs db a s ≡ (ok l, u)
      → (l ≡ new_listing host codecs db a)
        × ((a.enforcement_classification ≢ "enforcing") ⊎ IsEvidence a.classification_evidence)
        × (principal_is_active db s a.listed_by_principal_id ≡ true)
        × IsGranted host db codecs.keys s a.listed_by_principal_id "provider.list" a.recorded_at
        × (db.provider_listings.get u.provider_listings a.listing_id
            ≡ some (new_listing host codecs db a))
  unfolding create_listing evaluate_listing list_if_allowed
  create_listing-eq-ok a s {l} {u} h = elim (Bool-cases (lacks_evidence a)) [
    | inl e ↦ cc (rw e at h)
    | inr e ↦
        let h' : evaluate_listing host codecs db a s ≡ (ok l, u) = rw e at h in
        let (request, d, row, t, built, recorded, rest) =
          act-eq-ok host codecs db (listing_transition a) list_required_authority
            a.decision_record_id a.recorded_at a.correlation_id s (list_if_allowed host codecs db a)
            _ refl h' in
        let (allowed, same_row, added) =
          if_allowed-eq-ok host codecs db (Row.provider_listing (new_listing host codecs db a) ∷ [])
            (new_listing host codecs db a) Error.listing_refused d.outcome t rest in
        let (active, granted) =
          grounds host codecs db (listing_transition a) list_required_authority a.decision_record_id
            a.recorded_at a.correlation_id s built recorded allowed in
        (
          same_row,
          supported a e,
          active,
          granted,
          add_listing (new_listing host codecs db a) t
              (add_of_add_all db (Row.provider_listing (new_listing host codecs db a)) t added),
        )
  ]

  -- If `activate_provider` returned, it returned the activation of its arguments; its listing was
  -- there; the activating principal was active and a row granted it "provider.activate", in force
  -- at the recording; and the activation is found under its id, as is, under the id that it
  -- names, a Decision Record whose outcome is "Allowed".
  pub activate_provider-eq-ok :
      (a : ActivationArguments) (s : Session db) {l : ProviderActivation} {u : Session db}
      → activate_provider host codecs db a s ≡ (ok l, u)
      → (l ≡ new_activation a)
        × ((listing : ProviderListing) × (db.provider_listings.get s.provider_listings a.listing_id
              ≡ some listing))
        × (principal_is_active db s a.activated_by_principal_id ≡ true)
        × IsGranted host db codecs.keys s a.activated_by_principal_id "provider.activate"
            a.recorded_at
        × (db.provider_activations.get u.provider_activations a.activation_id
            ≡ some (new_activation a))
        × ((row : DecisionRecord) × HasRecord db (new_activation a).decision_record_id row u
            × (row.outcome ≡ "Allowed"))
  unfolding activate_provider evaluate_activation activate_if_allowed decision_row outcome_value
  activate_provider-eq-ok a s {l} {u} h =
      elim (Option-cases (db.provider_listings.get s.provider_listings a.listing_id)) [
        | inl e ↦ cc (rw (e, activate_provider) at h)
        | inr (listing, e) ↦
            let h' : evaluate_activation host codecs db a s ≡ (ok l, u) =
              rw (e, activate_provider) at h in
            let (request, d, row, t, built, recorded, rest) =
              act-eq-ok host codecs db (activation_transition a) required_authority
                a.decision_record_id a.recorded_at a.correlation_id s
                (activate_if_allowed host codecs db a) _ refl h' in
            let rows = Row.provider_activation (new_activation a) ∷ [] in
            let (allowed, same_row, added) =
              if_allowed-eq-ok host codecs db rows (new_activation a) Error.activation_refused
                d.outcome t rest in
            let (active, granted) =
              grounds host codecs db (activation_transition a) required_authority
                a.decision_record_id a.recorded_at a.correlation_id s built recorded allowed in
            let (evaluated, row_is, added_record) =
              evaluate_and_record-eq-ok host codecs db a.decision_record_id request a.recorded_at
                none s recorded in
            let made =
              decision_row host codecs db a.decision_record_id request d a.recorded_at none in
            let grown =
              subst (λ x. Grown db t x) (Grown_of_add_all db rows t added) (more rows same) in
            (
              same_row,
              (listing, e),
              active,
              granted,
              add_activation (new_activation a) t
                  (add_of_add_all db (Row.provider_activation (new_activation a)) t added),
              (
                made,
                Grown-HasRecord db a.decision_record_id made grown
                    (HasRecord_of_add db made s added_record),
                ap outcome_value allowed,
              ),
            )
      ]
