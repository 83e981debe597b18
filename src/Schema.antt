-- ===== src/Schema.antt =====
-- src/connect_governance/db/models.py: the rows of the governed state, and the constraints that
-- their tables declare. A Text column that holds JSON is a `String`; SQLite enforces no foreign key.
use connect_governance.Prelude.{
  ℕ, String, Bool, not, ◌&&◌, ◌||◌, Option, List, ◌==◌, ◌=ℕ◌, leb, any,
}

pub record Organization : Type 0 where
  pub id : String
  pub name : String
  pub recorded_at : String
  pub provenance : String

pub record Workspace : Type 0 where
  pub id : String
  pub organization_id : String
  pub name : String
  pub recorded_at : String
  pub provenance : String

pub record Person : Type 0 where
  pub id : String
  pub display_name : String
  pub active : Bool
  pub recorded_at : String
  pub provenance : String

pub record Agent : Type 0 where
  pub id : String
  pub display_name : String
  pub active : Bool
  pub recorded_at : String
  pub provenance : String

pub record AuthorityRelationship : Type 0 where
  pub id : String
  pub relationship_type : String
  pub principal_id : String
  pub target_id : String
  pub granted_authorities : String
  pub effective_from : Option String
  pub effective_until : Option String
  pub revoked_at : Option String
  pub recorded_at : String
  pub provenance : String

pub record WorkRequest : Type 0 where
  pub id : String
  pub owner_organization_id : String
  pub workspace_id : String
  pub created_by_principal_id : String
  pub recorded_at : String
  pub provenance : String

pub record WorkRequestRevision (F : Type 0) : Type 0 where
  pub id : String
  pub work_request_id : String
  pub revision_number : ℕ
  pub state_revision : String
  pub governance_json : String
  pub granted_authorities : String
  pub budget_ceiling_usd : Option F
  pub supersedes_revision_id : Option String
  pub recorded_at : String
  pub provenance : String

pub record GenesisRecord : Type 0 where
  pub singleton : ℕ
  pub deployment_root_fingerprint : String
  pub installer : String
  pub software_version : String
  pub initial_policy_hash : String
  pub initial_config_hash : String
  pub founding_person_id : String
  pub initial_organization_id : String
  pub initial_authority_id : String
  pub recorded_at : String

pub record DecisionRecord : Type 0 where
  pub id : String
  pub transition_id : String
  pub outcome : String
  pub request_json : String
  pub decision_json : String
  pub kernel_version : String
  pub conformance_spec_version : String
  pub evaluated_at : String
  pub recorded_at : String
  pub correlation_id : Option String
  pub work_request_id : Option String
  pub work_request_revision : Option String

pub record ExecutionGrantRecord : Type 0 where
  pub id : String
  pub decision_record_id : String
  pub grant_json : String
  pub issuer_key_id : String
  pub provider_id : String
  pub work_request_id : String
  pub issued_at : String
  pub not_before : Option String
  pub not_after : Option String
  pub correlation_id : Option String

pub record ProviderListing : Type 0 where
  pub id : String
  pub provider_id : String
  pub name : String
  pub metadata_json : String
  pub enforcement_classification : String
  pub classification_evidence_json : String
  pub recorded_at : String
  pub provenance : String

pub record ProviderActivation : Type 0 where
  pub id : String
  pub listing_id : String
  pub decision_record_id : String
  pub state : String
  pub recorded_at : String
  pub provenance : String

pub record RevocationListRecord : Type 0 where
  pub list_id : String
  pub issuer_key_id : String
  pub issued_at : String
  pub list_json : String
  pub supersedes : Option String

-- A primary key is taken by at most one row.
abbrev pub key_free : {K Row : Type 0} → (K → K → Bool) → (Row → K) → List Row → Row → Bool
key_free same key rows r = not (any (λ x. same (key x) (key r)) rows)

-- CheckConstraint("singleton = 1")
abbrev pub genesis_admits : List GenesisRecord → GenesisRecord → Bool
genesis_admits rows r = key_free ◌=ℕ◌ (λ x. x.singleton) rows r && r.singleton =ℕ 1

-- UniqueConstraint("work_request_id", "revision_number"), UniqueConstraint("state_revision"),
-- CheckConstraint("revision_number >= 1")
abbrev pub revision_admits :
    {F : Type 0} → List (WorkRequestRevision F) → WorkRequestRevision F → Bool
revision_admits rows r =
    key_free ◌==◌ (λ x. x.id) rows r
    && not (
        any (λ x. x.work_request_id == r.work_request_id && x.revision_number =ℕ r.revision_number)
          rows)
    && not (any (λ x. x.state_revision == r.state_revision) rows)
    && leb 1 r.revision_number

-- CheckConstraint("enforcement_classification IN ('enforcing', 'monitor_only')")
abbrev pub listing_admits : List ProviderListing → ProviderListing → Bool
listing_admits rows r =
    key_free ◌==◌ (λ x. x.id) rows r
    && (r.enforcement_classification == "enforcing"
        || r.enforcement_classification == "monitor_only")

-- CheckConstraint("state IN ('active', 'disabled', 'revoked')")
abbrev pub activation_admits : List ProviderActivation → ProviderActivation → Bool
activation_admits rows r =
    key_free ◌==◌ (λ x. x.id) rows r
    && (r.state == "active" || r.state == "disabled" || r.state == "revoked")
