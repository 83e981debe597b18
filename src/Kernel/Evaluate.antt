-- ===== src/Kernel/Evaluate.antt =====
-- `evaluate` of src/connect_governance_kernel/evaluate.py: the six stages, in the normative order.
pub mod Gates
pub mod Demands
pub mod Verdict
pub mod Order
pub mod Stages
pub mod Explained
pub mod Reasons
pub mod Total
use connect_governance.Prelude.{
  String, Bool, false, not, ◌&&◌, Option, none, some, List, [], ◌∷◌, ◌++◌, map, ◌==◌, if◌then◌else◌,
  elem, is_nil, dict_get, Result, ok, ◌>>=◌,
}
use connect_governance.Prelude.Int.{ℤ, ltb_ℤ}
use connect_governance.Kernel.Types.{
  Outcome, ReasonCode, DelegationContext, Constraint, require_classification, forbid_classification,
  budget_ceiling, require_approval, DecisionRequest, Decision, policy_version_text,
}
use connect_governance.Kernel.Evidence.{Host, Evidence, no_evidence, satisfy, fail}
use connect_governance.Kernel.Authority.{authority}

abbrev pub kernel_version : String
kernel_version = "0.0.1"

-- Both revisions are given, and they differ.
abbrev pub revision_differs : Option String → Option String → Bool
revision_differs (some expected) (some current) = not (expected == current)
revision_differs (some expected) none = false
revision_differs none current = false

-- c.get(key) == value
abbrev pub option_is : Option String → String → Bool
option_is none v = false
option_is (some w) v = w == v

-- max_depth is not None and depth > max_depth
abbrev pub too_deep : ℤ → Option ℤ → Bool
too_deep depth none = false
too_deep depth (some max_depth) = ltb_ℤ max_depth depth

unfoldable pub delegation_checks : String → Option DelegationContext → Evidence → Evidence
delegation_checks required none ev = ev
delegation_checks required (some d) ev =
    let depth_checked =
      if too_deep d.depth d.max_depth
      then fail ReasonCode.delegation_depth_exceeded "delegation.within_depth" ev
      else satisfy "delegation.within_depth" ev in
    if elem required d.granting_authorities
    then satisfy "delegation.subset_of_grant" depth_checked
    else fail ReasonCode.delegation_would_expand "delegation.subset_of_grant" depth_checked

unfoldable pub approval : Evidence → Evidence
approval ev =
    if is_nil ev.approvals
    then ev
    else record ev { reasons = ev.reasons ++ ReasonCode.approval_triggered ∷ [] }

unfoldable pub outcome_of : Evidence → Outcome
outcome_of ev =
    if not (is_nil ev.failed)
    then Outcome.denied
    else if not (is_nil ev.approvals)
    then Outcome.approval_required
    else Outcome.allowed

-- `reasons.append(PERMITTED)` in the last branch of the outcome.
unfoldable pub final_reasons : Evidence → List ReasonCode
final_reasons ev =
    if is_nil ev.failed && is_nil ev.approvals
    then ev.reasons ++ ReasonCode.permitted ∷ []
    else ev.reasons

module _ {F : Type 0} where
  unfoldable pub structural : DecisionRequest F → Evidence → Evidence
  structural request ev =
      if revision_differs request.transition.expected_state_revision request.current_state_revision
      then fail ReasonCode.expected_revision_stale "structural.expected_revision_matches" ev
      else satisfy "structural.expected_revision_matches" ev

  unfoldable pub principal : DecisionRequest F → Evidence → Evidence
  principal request ev =
      if request.principal_active
      then satisfy "principal.active" ev
      else fail ReasonCode.principal_inactive "principal.active" ev

  unfoldable pub delegation : DecisionRequest F → Evidence → Evidence
  delegation request ev = delegation_checks request.required_authority request.delegation ev

  unfoldable pub conclude : DecisionRequest F → Evidence → Decision
  conclude request ev = record {
    outcome = outcome_of ev;
    reason_codes = final_reasons ev;
    transition_id = request.transition.transition_id;
    kernel_version = kernel_version;
    evaluated_at = request.evaluation_time;
    resolved_authorities = ev.resolved;
    policy_versions = map policy_version_text request.policy_versions;
    satisfied_conditions = ev.satisfied;
    failed_conditions = ev.failed;
    required_approvals = ev.approvals;
    correlation_id = request.correlation_id;
  }

module _ {F : Type 0} (host : Host F) where
  -- request.cumulative_state.get(key, 0.0)
  abbrev pub spent : DecisionRequest F → String → F
  spent request key = elim (dict_get key request.cumulative_state) [
    | none ↦ host.zero_float
    | some x ↦ x
  ]

  -- The body of the loop over the constraints.
  unfoldable pub constrain : DecisionRequest F → Constraint F → Evidence → Evidence
  constrain request (require_classification i p key value) ev =
      if option_is (dict_get key request.classifications) value
      then satisfy i ev
      else fail ReasonCode.classification_required i ev
  constrain request (forbid_classification i p key value) ev =
      if option_is (dict_get key request.classifications) value
      then fail ReasonCode.classification_forbidden i ev
      else satisfy i ev
  constrain request (budget_ceiling i p key limit) ev =
      if host.gt (spent request key) limit
      then fail ReasonCode.budget_ceiling_exceeded i ev
      else satisfy i ev
  constrain request (require_approval i p approval_id) ev = record ev {
    approvals = ev.approvals ++ approval_id ∷ [];
  }

  unfoldable pub constrain_all : DecisionRequest F → List (Constraint F) → Evidence → Evidence
  constrain_all request [] ev = ev
  constrain_all request (c ∷ rest) ev = constrain_all request rest (constrain request c ev)

  unfoldable pub evaluate : DecisionRequest F → Result Decision
  evaluate request = do
    ev ← authority host request (principal request (structural request no_evidence))
    ok (
        conclude request
          (approval (constrain_all request request.constraints (delegation request ev))))
