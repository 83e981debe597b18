-- ===== src/Store.antt =====
-- The database session that the governance plane works in. SQLAlchemy and SQLite are an interface:
-- a table is read by its primary key or as a whole, and a row that its constraints admit is added.
pub mod Laws
pub mod Growth
pub mod Grants
pub mod Flush
use connect_governance.Prelude.{
  ℕ, String, ◌≡◌, Bool, true, false, Option, none, some, List, [], ◌∷◌, ◌==◌, ◌=ℕ◌, if◌then◌else◌,
  Merge, Error, Result, ok, err,
}
use connect_governance.Schema.{
  Organization, Workspace, Person, Agent, AuthorityRelationship, WorkRequest, WorkRequestRevision,
  GenesisRecord, DecisionRecord, ExecutionGrantRecord, ProviderListing, ProviderActivation,
  RevocationListRecord, key_free, genesis_admits, revision_admits, listing_admits,
  activation_admits,
}

-- The first row with the key.
abbrev pub find : {K Row : Type 0} → (K → K → Bool) → (Row → K) → List Row → K → Option Row
find same key [] k = none
find same key (r ∷ rows) k = if same (key r) k then some r else find same key rows k

-- A table, whose constraints admit a row beside the rows that are there.
pub record Table {K Row : Type 0} (same : K → K → Bool) (key : Row → K)
    (admits : List Row → Row → Bool) : Type 1 where
  pub State : Type 0
  -- SELECT ... ORDER BY the primary key
  pub scan : State → List Row
  -- session.get(Model, key)
  pub get : State → K → Option Row
  -- The row, flushed; `none` is an IntegrityError.
  pub insert : Row → State → Option State
  pub get-scan : (s : State) (k : K) → get s k ≡ find same key (scan s) k
  pub insert-some :
      (r : Row) (s : State) {t : State}
      → insert r s ≡ some t
      → (admits (scan s) r ≡ true) × Merge (r ∷ []) (scan s) (scan t)
  pub insert-none : (r : Row) (s : State) → insert r s ≡ none → admits (scan s) r ≡ false

-- A table with a string key and no other constraint.
abbrev pub Keyed : {Row : Type 0} → (Row → String) → Type 1
Keyed key = Table ◌==◌ key (key_free ◌==◌ key)

pub record Database (F : Type 0) : Type 1 where
  pub organizations : Keyed {Row = Organization} (λ r. r.id)
  pub workspaces : Keyed {Row = Workspace} (λ r. r.id)
  pub persons : Keyed {Row = Person} (λ r. r.id)
  pub agents : Keyed {Row = Agent} (λ r. r.id)
  pub authority_relationships : Keyed {Row = AuthorityRelationship} (λ r. r.id)
  pub work_requests : Keyed {Row = WorkRequest} (λ r. r.id)
  pub work_request_revisions : Table {Row = WorkRequestRevision F} ◌==◌ (λ r. r.id) revision_admits
  pub genesis_record : Table {Row = GenesisRecord} ◌=ℕ◌ (λ r. r.singleton) genesis_admits
  pub decision_records : Keyed {Row = DecisionRecord} (λ r. r.id)
  pub execution_grant_records : Keyed {Row = ExecutionGrantRecord} (λ r. r.id)
  pub provider_listings : Table {Row = ProviderListing} ◌==◌ (λ r. r.id) listing_admits
  pub provider_activations : Table {Row = ProviderActivation} ◌==◌ (λ r. r.id) activation_admits
  pub revocation_list_records : Keyed {Row = RevocationListRecord} (λ r. r.list_id)

-- What a session sees: the state of each table within its transaction.
pub record Session {F : Type 0} (db : Database F) : Type 0 where
  pub organizations : db.organizations.State
  pub workspaces : db.workspaces.State
  pub persons : db.persons.State
  pub agents : db.agents.State
  pub authority_relationships : db.authority_relationships.State
  pub work_requests : db.work_requests.State
  pub work_request_revisions : db.work_request_revisions.State
  pub genesis_record : db.genesis_record.State
  pub decision_records : db.decision_records.State
  pub execution_grant_records : db.execution_grant_records.State
  pub provider_listings : db.provider_listings.State
  pub provider_activations : db.provider_activations.State
  pub revocation_list_records : db.revocation_list_records.State

-- What `session.add` takes: a row of some table.
pub data Row (F : Type 0) : Type 0 where
  organization : Organization → Row F
  workspace : Workspace → Row F
  person : Person → Row F
  agent : Agent → Row F
  authority_relationship : AuthorityRelationship → Row F
  work_request : WorkRequest → Row F
  work_request_revision : WorkRequestRevision F → Row F
  genesis : GenesisRecord → Row F
  decision_record : DecisionRecord → Row F
  execution_grant_record : ExecutionGrantRecord → Row F
  provider_listing : ProviderListing → Row F
  provider_activation : ProviderActivation → Row F
  revocation_list_record : RevocationListRecord → Row F

-- An operation on the session: it returns or raises, and leaves a session either way.
abbrev pub Exec : {F : Type 0} → Database F → Type 0 → Type 0
Exec db A = Session db → Result A × Session db

abbrev pub put_back : {S T : Type 0} → (T → S) → Option T → Option S
put_back f none = none
put_back f (some t) = some (f t)

module _ {F : Type 0} (db : Database F) where
  unfoldable pub add : Row F → Session db → Option (Session db)
  add (Row.organization r) s =
      put_back (λ t. record s { organizations = t }) (db.organizations.insert r s.organizations)
  add (Row.workspace r) s =
      put_back (λ t. record s { workspaces = t }) (db.workspaces.insert r s.workspaces)
  add (Row.person r) s = put_back (λ t. record s { persons = t }) (db.persons.insert r s.persons)
  add (Row.agent r) s = put_back (λ t. record s { agents = t }) (db.agents.insert r s.agents)
  add (Row.authority_relationship r) s =
      put_back (λ t. record s { authority_relationships = t })
        (db.authority_relationships.insert r s.authority_relationships)
  add (Row.work_request r) s =
      put_back (λ t. record s { work_requests = t }) (db.work_requests.insert r s.work_requests)
  add (Row.work_request_revision r) s =
      put_back (λ t. record s { work_request_revisions = t })
        (db.work_request_revisions.insert r s.work_request_revisions)
  add (Row.genesis r) s =
      put_back (λ t. record s { genesis_record = t }) (db.genesis_record.insert r s.genesis_record)
  add (Row.decision_record r) s =
      put_back (λ t. record s { decision_records = t })
        (db.decision_records.insert r s.decision_records)
  add (Row.execution_grant_record r) s =
      put_back (λ t. record s { execution_grant_records = t })
        (db.execution_grant_records.insert r s.execution_grant_records)
  add (Row.provider_listing r) s =
      put_back (λ t. record s { provider_listings = t })
        (db.provider_listings.insert r s.provider_listings)
  add (Row.provider_activation r) s =
      put_back (λ t. record s { provider_activations = t })
        (db.provider_activations.insert r s.provider_activations)
  add (Row.revocation_list_record r) s =
      put_back (λ t. record s { revocation_list_records = t })
        (db.revocation_list_records.insert r s.revocation_list_records)

  unfoldable pub add_all : List (Row F) → Session db → Option (Session db)
  add_all [] s = some s
  add_all (r ∷ rows) s = elim (add r s) [ none ↦ none | some t ↦ add_all rows t ]

  -- `session.add` of each row, then `session.flush()`. A row that is refused raises IntegrityError,
  -- and SQLAlchemy rolls the whole transaction back: the session beside that exception is the one
  -- before this flush, nothing more runs in it, and `transaction` puts the start in its place, so that
  -- what earlier flushes of the transaction wrote is gone as well.
  unfoldable pub flush : List (Row F) → Exec db (Unit {0})
  flush rows s = elim (add_all rows s) [
    | none ↦ (err Error.integrity_error, s)
    | some t ↦ (ok tt, t)
  ]

module _ {F : Type 0} {db : Database F} {A B : Type 0} where
  abbrev pub continue : Result A → (A → Exec db B) → Exec db B
  continue (ok a) f s = f a s
  continue (err e) f s = (err e, s)

  -- One statement after another; an exception passes the rest by.
  infixl 5 ◌>>=◌ ◌>>◌
  abbrev pub ◌>>=◌ : Exec db A → (A → Exec db B) → Exec db B
  ◌>>=◌ m f s = let (r, t) = m s in continue r f t

  abbrev pub ◌>>◌ : Exec db A → Exec db B → Exec db B
  m >> k = m >>= λ _. k

module _ {F : Type 0} {db : Database F} {A : Type 0} where
  abbrev pub pure : A → Exec db A
  pure a s = (ok a, s)

  abbrev pub raise : Error → Exec db A
  raise e s = (err e, s)

  -- A computation that reads the session and may raise.
  abbrev pub reads : (Session db → Result A) → Exec db A
  reads f s = (f s, s)

  abbrev outcome_in : Session db → Result A × Session db → Result A × Session db
  outcome_in start (ok a, s) = (ok a, s)
  outcome_in start (err e, s) = (err e, start)

  -- `with session.begin():`, the caller's transaction: an exception rolls it back.
  unfoldable pub transaction : Exec db A → Exec db A
  transaction m s = outcome_in s (m s)
