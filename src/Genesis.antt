-- ===== src/Genesis.antt =====
-- src/connect_governance/genesis.py: the one-time deployment trust root.
pub mod Once
pub mod Founding
use connect_governance.Prelude.{
  String, Bool, true, false, not, ◌&&◌, Option, none, some, List, [], ◌∷◌, is_nil, if◌then◌else◌,
  Error,
}
use connect_governance.Codec.{Codec}
use connect_governance.Schema.{
  Organization, Workspace, Person, Agent, AuthorityRelationship, GenesisRecord,
}
use connect_governance.Store.{Database, Session, Row, Exec, pure, raise, flush, ◌>>=◌, ◌>>◌}

abbrev pub genesis_provenance : String
genesis_provenance = "genesis"

abbrev pub founding_authorities : List String
founding_authorities =
    "organization.administer" ∷ "workspace.create" ∷ "work_request.create" ∷ "authority.grant" ∷ []

pub record GenesisRequest : Type 0 where
  pub deployment_root_fingerprint : String
  pub installer : String
  pub software_version : String
  pub initial_policy_hash : String
  pub initial_config_hash : String
  pub organization_id : String
  pub organization_name : String
  pub workspace_id : String
  pub workspace_name : String
  pub founding_person_id : String
  pub founding_person_name : String
  pub initial_agent_id : String
  pub initial_agent_name : String
  pub authority_id : String
  pub recorded_at : String

pub record GenesisResult : Type 0 where
  pub organization_id : String
  pub workspace_id : String
  pub founding_person_id : String
  pub initial_agent_id : String
  pub authority_id : String

abbrev pub is_some : {A : Type 0} → Option A → Bool
is_some none = false
is_some (some a) = true

module _ {F : Type 0} (db : Database F) where
  unfoldable pub genesis_completed : Session db → Bool
  genesis_completed s = is_some (db.genesis_record.get s.genesis_record 1)

  -- No table holds a row: `select(model).limit(1)` of each, then the Genesis record.
  unfoldable pub state_is_empty : Session db → Bool
  state_is_empty s =
      is_nil (db.organizations.scan s.organizations)
      && is_nil (db.workspaces.scan s.workspaces)
      && is_nil (db.persons.scan s.persons)
      && is_nil (db.agents.scan s.agents)
      && is_nil (db.authority_relationships.scan s.authority_relationships)
      && not (genesis_completed s)

-- The ordinary authority row.
abbrev pub founding_grant : Codec (List String) → GenesisRequest → AuthorityRelationship
founding_grant keys request = record {
  id = request.authority_id;
  relationship_type = "GenesisGrant";
  principal_id = request.founding_person_id;
  target_id = request.organization_id;
  granted_authorities = keys.encode founding_authorities;
  effective_from = some request.recorded_at;
  effective_until = none;
  revoked_at = none;
  recorded_at = request.recorded_at;
  provenance = genesis_provenance;
}

abbrev pub trust_root : GenesisRequest → GenesisRecord
trust_root request = record {
  singleton = 1;
  deployment_root_fingerprint = request.deployment_root_fingerprint;
  installer = request.installer;
  software_version = request.software_version;
  initial_policy_hash = request.initial_policy_hash;
  initial_config_hash = request.initial_config_hash;
  founding_person_id = request.founding_person_id;
  initial_organization_id = request.organization_id;
  initial_authority_id = request.authority_id;
  recorded_at = request.recorded_at;
}

abbrev pub first_organization : GenesisRequest → Organization
first_organization request = record {
  id = request.organization_id;
  name = request.organization_name;
  recorded_at = request.recorded_at;
  provenance = genesis_provenance;
}

abbrev pub first_workspace : GenesisRequest → Workspace
first_workspace request = record {
  id = request.workspace_id;
  organization_id = request.organization_id;
  name = request.workspace_name;
  recorded_at = request.recorded_at;
  provenance = genesis_provenance;
}

abbrev pub founding_person : GenesisRequest → Person
founding_person request = record {
  id = request.founding_person_id;
  display_name = request.founding_person_name;
  active = true;
  recorded_at = request.recorded_at;
  provenance = genesis_provenance;
}

abbrev pub initial_agent : GenesisRequest → Agent
initial_agent request = record {
  id = request.initial_agent_id;
  display_name = request.initial_agent_name;
  active = true;
  recorded_at = request.recorded_at;
  provenance = genesis_provenance;
}

-- The rows in the order of the `session.add` calls.
abbrev pub genesis_rows : {F : Type 0} → Codec (List String) → GenesisRequest → List (Row F)
genesis_rows keys request =
    Row.organization (first_organization request)
    ∷ Row.workspace (first_workspace request)
    ∷ Row.person (founding_person request)
    ∷ Row.agent (initial_agent request)
    ∷ Row.authority_relationship (founding_grant keys request)
    ∷ Row.genesis (trust_root request)
    ∷ []

abbrev pub genesis_result : GenesisRequest → GenesisResult
genesis_result request = record {
  organization_id = request.organization_id;
  workspace_id = request.workspace_id;
  founding_person_id = request.founding_person_id;
  initial_agent_id = request.initial_agent_id;
  authority_id = request.authority_id;
}

module _ {F : Type 0} (db : Database F) (keys : Codec (List String)) where
  unfoldable pub initialize_deployment : GenesisRequest → Exec db GenesisResult
  initialize_deployment request s =
      if genesis_completed db s
      then raise Error.genesis_refused s
      else if not (state_is_empty db s)
      then raise Error.genesis_refused s
      else (flush db (genesis_rows keys request) >> pure (genesis_result request)) s
