-- ===== src/Explanation/Views.antt =====
-- The dicts that src/connect_governance/explanation.py returns, as records, and what formats their texts.
use connect_governance.Prelude.{String, Bool, Option, List}
use connect_governance.Prelude.Int.{ℤ}

-- How Python writes a value into an f-string.
pub record Format (F : Type 0) : Type 0 where
  -- f"{x:g}"
  pub general : F → String
  -- repr(text), f"{text!r}"
  pub repr : String → String
  -- str(n)
  pub decimal : ℤ → String

pub record OperatorView : Type 0 where
  pub outcome : String
  pub reason : String
  pub material_finding : Option String
  pub next_action : String

pub record StageView : Type 0 where
  pub stage : String
  pub evaluated : Bool
  pub satisfied : List String
  pub failed : List String

pub record AuthorityView : Type 0 where
  pub relationship_id : String
  pub relationship_type : String
  pub principal_id : String
  pub target_id : String
  pub granted_authorities : List String
  pub matches_principal : Bool
  pub grants_required_authority : Bool
  pub was_a_candidate : Bool
  pub relied_upon : Bool
  pub effective_from : Option String
  pub effective_until : Option String
  pub revoked_at : Option String

-- The keys that an entry has besides those of every constraint.
pub data Detail (F : Type 0) : Type 0 where
  budget : (key : String) (limit observed : F) → Detail F
  classification : (key value : String) (observed : Option String) → Detail F
  approval : (approval_id : String) → Detail F

pub record ConstraintView (F : Type 0) : Type 0 where
  pub constraint_id : String
  pub kind : String
  pub policy_version : String
  pub detail : Detail F
  pub result : String

pub record ApprovalView : Type 0 where
  pub required : List String
  pub triggered : Bool
  pub note : String

pub record RevisionsView : Type 0 where
  pub transition_id : String
  pub expected_state_revision : Option String
  pub current_state_revision : Option String
  pub policy_versions : List String

pub record VersionsView : Type 0 where
  pub kernel_version : String
  pub conformance_spec_version : String

pub record ProofView (F : Type 0) : Type 0 where
  pub outcome : String
  pub reason_codes : List String
  pub stages : List StageView
  pub authorities_evaluated : List AuthorityView
  pub constraints_evaluated : List (ConstraintView F)
  pub approval_findings : ApprovalView
  pub revisions : RevisionsView
  pub versions : VersionsView
  pub evaluated_at : String
  pub correlation_id : Option String

pub record Explanation (F : Type 0) : Type 0 where
  pub operator : OperatorView
  pub proof : ProofView F
