-- ===== src/Resolution.antt =====
-- src/connect_governance/resolution.py: from governed state to an explicit Kernel input.
pub mod Grounds
pub mod Outcome
pub mod Revisions
pub mod Rows
use connect_governance.Prelude.{
  ℕ, String, Bool, false, Option, none, some, List, [], ◌∷◌, ◌==◌, filter, ltb, if◌then◌else◌,
  Result, ok, ◌>>=◌,
}
use connect_governance.Kernel.Types.{
  AuthorityEvidence, Constraint, DecisionRequest, DelegationContext, PolicyVersionRef, Transition,
}
use connect_governance.Codec.{Codec}
use connect_governance.Schema.{Agent, AuthorityRelationship, Person, WorkRequestRevision}
use connect_governance.Store.{Database, Session}

-- Evidence as the row has it; `json.loads` raises for a column that holds no JSON array.
unfoldable pub evidence_of : Codec (List String) → AuthorityRelationship → Result AuthorityEvidence
evidence_of keys r = do
  granted ← keys.decode r.granted_authorities
  ok (record {
    relationship_id = r.id;
    relationship_type = r.relationship_type;
    principal_id = r.principal_id;
    target_id = r.target_id;
    granted_authorities = granted;
    effective_from = r.effective_from;
    effective_until = r.effective_until;
    revoked_at = r.revoked_at;
  })

unfoldable pub evidence_of_all :
    Codec (List String) → List AuthorityRelationship → Result (List AuthorityEvidence)
evidence_of_all keys [] = ok []
evidence_of_all keys (r ∷ rows) = do
  ev ← evidence_of keys r
  rest ← evidence_of_all keys rows
  ok (ev ∷ rest)

-- ORDER BY revision_number DESC LIMIT 1: numbers of one Work Request are unique.
unfoldable pub latest_of :
    {F : Type 0}
    → Option (WorkRequestRevision F)
    → List (WorkRequestRevision F)
    → Option (WorkRequestRevision F)
latest_of best [] = best
latest_of none (r ∷ rows) = latest_of (some r) rows
latest_of (some b) (r ∷ rows) =
    latest_of (some (if ltb b.revision_number r.revision_number then r else b)) rows

abbrev pub token_of : {F : Type 0} → Option (WorkRequestRevision F) → Option String
token_of none = none
token_of (some r) = some r.state_revision

abbrev pub or_empty {ℓ} : {A : Type ℓ} → Option (List A) → List A
or_empty none = []
or_empty (some xs) = xs

-- The keyword arguments of `build_decision_request` that have defaults.
pub record Facts (F : Type 0) : Type 0 where
  pub work_request_id : Option String
  pub policy_versions : List PolicyVersionRef
  pub constraints : List (Constraint F)
  pub classifications : Option (List (String × String))
  pub cumulative_state : Option (List (String × F))
  pub delegation : Option DelegationContext
  pub correlation_id : Option String

module _ {F : Type 0} (db : Database F) where
  unfoldable pub agent_is_active : Option Agent → Bool
  agent_is_active none = false
  agent_is_active (some a) = a.active

  unfoldable pub principal_is_active : Session db → String → Bool
  unfolding agent_is_active
  principal_is_active s principal_id = elim (db.persons.get s.persons principal_id) [
    | some person ↦ person.active
    | none ↦ agent_is_active (db.agents.get s.agents principal_id)
  ]

  unfoldable pub resolve_authority_evidence :
      Codec (List String) → Session db → String → Result (List AuthorityEvidence)
  resolve_authority_evidence keys s principal_id = evidence_of_all keys (
      filter (λ r. r.principal_id == principal_id)
        (db.authority_relationships.scan s.authority_relationships))

  unfoldable pub current_state_revision : Session db → String → Option String
  current_state_revision s work_request_id = token_of (
      latest_of none (
        filter (λ r. r.work_request_id == work_request_id)
          (db.work_request_revisions.scan s.work_request_revisions)))

  abbrev pub revision_of : Session db → Option String → Option String
  revision_of s none = none
  revision_of s (some work_request_id) = current_state_revision s work_request_id

  unfoldable pub build_decision_request :
      Codec (List String)
      → Session db
      → Transition F
      → (required_authority evaluation_time : String) → Facts F
      → Result (DecisionRequest F)
  build_decision_request keys s transition required_authority evaluation_time facts = do
    evidence ← resolve_authority_evidence keys s transition.proposed_by_principal_id
    ok (record {
      transition = transition;
      principal_active = principal_is_active s transition.proposed_by_principal_id;
      required_authority = required_authority;
      current_state_revision = revision_of s facts.work_request_id;
      authority_evidence = evidence;
      policy_versions = facts.policy_versions;
      constraints = facts.constraints;
      classifications = or_empty facts.classifications;
      cumulative_state = or_empty facts.cumulative_state;
      delegation = facts.delegation;
      evaluation_time = evaluation_time;
      correlation_id = facts.correlation_id;
    })
