-- ===== src/Kernel/Types.antt =====
-- src/connect_governance_kernel/types.py: the Kernel's input and output contract.
-- `F` is the type of the Python floats; a Mapping is its list of items, with distinct keys in their order.
use Prim.Native.String.{◌++◌}
use connect_governance.Prelude.{String, Bool, Option, List}
use connect_governance.Prelude.Int.{ℤ}
use connect_governance.Kernel.Json.{Fields}

pub data Outcome : Type 0 where
  allowed denied approval_required : Outcome

-- A StrEnum member is its string value.
unfoldable pub outcome_value : Outcome → String
outcome_value Outcome.allowed = "Allowed"
outcome_value Outcome.denied = "Denied"
outcome_value Outcome.approval_required = "ApprovalRequired"

pub data ReasonCode : Type 0 where
  expected_revision_stale : ReasonCode
  principal_inactive no_explicit_authority : ReasonCode
  authority_not_yet_effective authority_expired authority_revoked : ReasonCode
  delegation_would_expand delegation_depth_exceeded : ReasonCode
  classification_required classification_forbidden budget_ceiling_exceeded : ReasonCode
  approval_triggered : ReasonCode
  permitted : ReasonCode

unfoldable pub reason_value : ReasonCode → String
reason_value ReasonCode.expected_revision_stale = "transition.expected_revision_stale"
reason_value ReasonCode.principal_inactive = "principal.inactive"
reason_value ReasonCode.no_explicit_authority = "authority.none_explicit"
reason_value ReasonCode.authority_not_yet_effective = "authority.not_yet_effective"
reason_value ReasonCode.authority_expired = "authority.expired"
reason_value ReasonCode.authority_revoked = "authority.revoked"
reason_value ReasonCode.delegation_would_expand = "delegation.would_expand_authority"
reason_value ReasonCode.delegation_depth_exceeded = "delegation.depth_exceeded"
reason_value ReasonCode.classification_required = "classification.required_absent"
reason_value ReasonCode.classification_forbidden = "classification.forbidden_present"
reason_value ReasonCode.budget_ceiling_exceeded = "budget.ceiling_exceeded"
reason_value ReasonCode.approval_triggered = "approval.required_by_policy"
reason_value ReasonCode.permitted = "permitted"

pub record Transition (F : Type 0) : Type 0 where
  pub transition_id : String
  pub transition_type : String
  pub proposed_by_principal_id : String
  pub target_type : String
  pub target_id : Option String
  pub operation : String
  pub claims : Fields F
  pub expected_state_revision : Option String

pub record AuthorityEvidence : Type 0 where
  pub relationship_id : String
  pub relationship_type : String
  pub principal_id : String
  pub target_id : String
  pub granted_authorities : List String
  pub effective_from : Option String
  pub effective_until : Option String
  pub revoked_at : Option String

pub record PolicyVersionRef : Type 0 where
  pub policy_id : String
  pub version : String
  pub content_hash : Option String

pub record DelegationContext : Type 0 where
  pub depth : ℤ
  pub max_depth : Option ℤ
  pub granting_authorities : List String

-- The classes of constraints, each with the fields of `_Constraint` first.
pub data Constraint (F : Type 0) : Type 0 where
  require_classification : (constraint_id policy_version key value : String) → Constraint F
  forbid_classification : (constraint_id policy_version key value : String) → Constraint F
  budget_ceiling : (constraint_id policy_version key : String) (limit : F) → Constraint F
  require_approval : (constraint_id policy_version approval_id : String) → Constraint F

pub record DecisionRequest (F : Type 0) : Type 0 where
  pub transition : Transition F
  pub principal_active : Bool
  pub required_authority : String
  pub current_state_revision : Option String
  pub authority_evidence : List AuthorityEvidence
  pub policy_versions : List PolicyVersionRef
  pub constraints : List (Constraint F)
  pub classifications : List (String × String)
  pub cumulative_state : List (String × F)
  pub delegation : Option DelegationContext
  pub evaluation_time : String
  pub correlation_id : Option String

pub record Decision : Type 0 where
  pub outcome : Outcome
  pub reason_codes : List ReasonCode
  pub transition_id : String
  pub kernel_version : String
  pub evaluated_at : String
  pub resolved_authorities : List String
  pub policy_versions : List String
  pub satisfied_conditions : List String
  pub failed_conditions : List String
  pub required_approvals : List String
  pub correlation_id : Option String

-- f"{p.policy_id}@{p.version}"
abbrev pub policy_version_text : PolicyVersionRef → String
policy_version_text p = p.policy_id ++ ("@" ++ p.version)
