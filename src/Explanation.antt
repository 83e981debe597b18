-- ===== src/Explanation.antt =====
-- src/connect_governance/explanation.py: the two views of a Decision, computed on read.
pub mod Prose
pub mod Views
pub mod Stages
pub mod Proof
pub mod Headline
pub mod Grouped
mod Ids
pub mod Results
use connect_governance.Prelude.{
  String, Bool, true, false, ◌||◌, Option, none, some, List, [], ◌∷◌, elem, dict_get, ◌==◌,
  if◌then◌else◌,
}
use connect_governance.Prelude.Int.{ℤ}
use connect_governance.Kernel.Types.{
  Outcome, outcome_value, ReasonCode, DelegationContext, Constraint, require_classification,
  forbid_classification, budget_ceiling, require_approval, DecisionRequest, Decision,
}
use connect_governance.Kernel.Evidence.{Host, elem_code}
use connect_governance.Kernel.Evaluate.{spent}
use connect_governance.Explanation.Prose.{reason_prose, remedy, joined}
use connect_governance.Explanation.Views.{Format, OperatorView, ProofView, Explanation}
use connect_governance.Explanation.Stages.{constraint_id}
use connect_governance.Explanation.Proof.{proof_view}

-- ", ".join(texts)
abbrev pub comma_joined : List String → String
comma_joined [] = ""
comma_joined (t ∷ []) = t
comma_joined (t ∷ u ∷ ts) = joined (t ∷ ", " ∷ comma_joined (u ∷ ts) ∷ [])

-- An Optional text in an f-string.
abbrev pub text_or_none : Option String → String
text_or_none none = "None"
text_or_none (some t) = t

-- c is not ReasonCode.PERMITTED
abbrev pub is_not_permitted : ReasonCode → Bool
is_not_permitted ReasonCode.permitted = false
is_not_permitted _ = true

-- next((c for c in codes if c is not ReasonCode.PERMITTED), None)
abbrev pub headline : List ReasonCode → Option ReasonCode
headline [] = none
headline (c ∷ codes) = if is_not_permitted c then some c else headline codes

abbrev pub is_allowed : Outcome → Bool
is_allowed Outcome.allowed = true
is_allowed _ = false

abbrev pub is_approval_required : Outcome → Bool
is_approval_required Outcome.approval_required = true
is_approval_required _ = false

unfoldable pub reason_of : Decision → String
unfolding reason_prose
reason_of decision =
    if is_allowed decision.outcome
    then "Permitted: the requester holds the required permission and no limit was exceeded."
    else elim (headline decision.reason_codes) [ none ↦ "" | some c ↦ reason_prose c ]

-- The branches of `_next_action` on the codes.
unfoldable pub denial_action : (required_authority principal_id : String) → List ReasonCode → String
unfolding remedy elem_code
denial_action required who codes =
    if elem_code ReasonCode.expected_revision_stale codes
    then remedy required who ReasonCode.expected_revision_stale
    else if elem_code ReasonCode.principal_inactive codes
    then remedy required who ReasonCode.principal_inactive
    else if elem_code ReasonCode.authority_expired codes
        || elem_code ReasonCode.authority_revoked codes
    then remedy required who ReasonCode.authority_expired
    else if elem_code ReasonCode.authority_not_yet_effective codes
    then remedy required who ReasonCode.authority_not_yet_effective
    else if elem_code ReasonCode.no_explicit_authority codes
    then remedy required who ReasonCode.no_explicit_authority
    else if elem_code ReasonCode.delegation_would_expand codes
    then remedy required who ReasonCode.delegation_would_expand
    else if elem_code ReasonCode.delegation_depth_exceeded codes
    then remedy required who ReasonCode.delegation_depth_exceeded
    else if elem_code ReasonCode.budget_ceiling_exceeded codes
    then remedy required who ReasonCode.budget_ceiling_exceeded
    else if elem_code ReasonCode.classification_required codes
        || elem_code ReasonCode.classification_forbidden codes
    then remedy required who ReasonCode.classification_required
    else "Review the proof view for the failed conditions."

module _ {F : Type 0} (host : Host F) (format : Format F) where
  abbrev pub decimal_or_none : Option ℤ → String
  decimal_or_none none = "None"
  decimal_or_none (some n) = format.decimal n

  abbrev pub repr_or_not_set : Option String → String
  repr_or_not_set none = "not set"
  repr_or_not_set (some t) = format.repr t

  -- What the loop of `_material_finding` returns at a failed constraint, if it returns.
  unfoldable pub constraint_finding : DecisionRequest F → Constraint F → Option String
  constraint_finding request (budget_ceiling i p key limit) = some (
      joined (
        key
        ∷ ": "
        ∷ format.general (spent host request key)
        ∷ " committed against a limit of "
        ∷ format.general limit
        ∷ " (policy "
        ∷ p
        ∷ ")"
        ∷ []))
  constraint_finding request (require_classification i p key value) = some (
      joined (
        key
        ∷ " must be "
        ∷ format.repr value
        ∷ "; it is "
        ∷ repr_or_not_set (dict_get key request.classifications)
        ∷ " (policy "
        ∷ p
        ∷ ")"
        ∷ []))
  constraint_finding request (forbid_classification i p key value) = some (
      joined (
        key ∷ " is " ∷ format.repr value ∷ ", which policy " ∷ p ∷ " forbids for this action" ∷ []))
  constraint_finding request (require_approval i p a) = none

  -- for c in request.constraints: if c.constraint_id not in failed: continue; ...
  unfoldable pub failed_constraint_finding :
      DecisionRequest F → List (Constraint F) → List String → Option String
  failed_constraint_finding request [] failed = none
  failed_constraint_finding request (c ∷ cs) failed =
      let rest = failed_constraint_finding request cs failed in
      if elem (constraint_id c) failed
      then elim (constraint_finding request c) [ none ↦ rest | some t ↦ some t ]
      else rest

  -- The two findings about a delegation that is given.
  unfoldable pub delegation_finding :
      DecisionRequest F → List String → Option String → Option String
  delegation_finding request failed otherwise = elim request.delegation [
    | none ↦ otherwise
    | some d ↦
        if elem "delegation.within_depth" failed
        then some (
            joined (
              "delegation depth "
              ∷ format.decimal d.depth
              ∷ " exceeds the maximum of "
              ∷ decimal_or_none d.max_depth
              ∷ []))
        else if elem "delegation.subset_of_grant" failed
        then some (
            joined (
              request.required_authority
              ∷ " is not among the permissions the originating work was granted" ∷ []))
        else otherwise
  ]

  unfoldable pub material_finding : DecisionRequest F → Decision → Option String
  material_finding request decision =
      let failed = decision.failed_conditions in
      elim (failed_constraint_finding request request.constraints failed) [
        | some t ↦ some t
        | none ↦
            if elem "authority.explicit_and_effective" failed
            then some (joined ("required permission: " ∷ request.required_authority ∷ []))
            else delegation_finding request failed (
                if elem "structural.expected_revision_matches" failed
                then some (
                    joined (
                      "prepared against version "
                      ∷ text_or_none request.transition.expected_state_revision
                      ∷ "; current version is "
                      ∷ text_or_none request.current_state_revision
                      ∷ []))
                else none)
      ]

  unfoldable pub next_action : DecisionRequest F → Decision → String
  next_action request decision =
      if is_allowed decision.outcome
      then "No action needed — this is authorized and may proceed."
      else if is_approval_required decision.outcome
      then joined
          ("Request approval to proceed (" ∷ comma_joined decision.required_approvals ∷ ")." ∷ [])
      else denial_action request.required_authority request.transition.proposed_by_principal_id
          decision.reason_codes

  abbrev pub operator_view : DecisionRequest F → Decision → OperatorView
  operator_view request decision = record {
    outcome = outcome_value decision.outcome;
    reason = reason_of decision;
    material_finding = material_finding request decision;
    next_action = next_action request decision;
  }

  abbrev pub explain : DecisionRequest F → Decision → Explanation F
  explain request decision = record {
    operator = operator_view request decision;
    proof = proof_view host request decision;
  }
