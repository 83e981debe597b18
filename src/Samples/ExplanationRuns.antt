-- ===== src/Samples/ExplanationRuns.antt =====
-- What an operator reads of a Decision that asks for an approval, and of one that denies.
use connect_governance.Prelude.{ℕ, ◌≤◌, ◌≡◌, refl, ◌⊎◌, false, All, some, List, [], ◌∷◌, map, ok}
use connect_governance.Kernel.Types.{
  Outcome, ReasonCode, outcome_value, reason_value, DecisionRequest, Decision,
}
use connect_governance.Kernel.Timestamp.{
  is_space, lstrip, strip, normalize_zulu, require_offset, parse_rfc3339,
}
use connect_governance.Kernel.Evidence.{elem_code}
use connect_governance.Kernel.Authority.{
  bound_test, authority_is_effective, assess, authority, note_candidate, conclude_authority,
  ineffective_codes,
}
use connect_governance.Kernel.Evaluate.{
  structural, principal, delegation, delegation_checks, constrain, constrain_all, conclude,
  evaluate, approval, outcome_of, final_reasons,
}
use connect_governance.Kernel.Evaluate.Stages.{rank}
use connect_governance.Explanation.Prose.{reason_prose, remedy}
use connect_governance.Explanation.Views.{Format}
use connect_governance.Explanation.Stages.{stage_order}
use connect_governance.Explanation.Proof.{proof_view}
use connect_governance.Explanation.{
  reason_of, constraint_finding, failed_constraint_finding, delegation_finding, material_finding,
  denial_action, next_action, operator_view,
}
use connect_governance.Explanation.Headline.{
  stage_number, IsEarliest, reason_of-evaluate, next_action-evaluate,
}
use connect_governance.Explanation.Results.{results-proof_view}
use connect_governance.Explanation.Grouped.{concat, stages-proof_view}
use connect_governance.Samples.{sample_host}
use connect_governance.Samples.Requests.{sample_request, sample_decision}

abbrev format : Format ℕ
format = record { general = λ x. "x"; repr = λ t. t; decimal = λ n. "n" }

-- The principal is inactive, and the ceiling is below what was spent.
abbrev denied_request : DecisionRequest ℕ
denied_request = record sample_request {
  principal_active = false;
  cumulative_state = ("usd", 501) ∷ [];
}

abbrev denied_decision : Decision
denied_decision = record sample_decision {
  outcome = Outcome.denied;
  reason_codes =
      ReasonCode.principal_inactive ∷ ReasonCode.budget_ceiling_exceeded
      ∷ ReasonCode.approval_triggered ∷ [];
  satisfied_conditions =
      "structural.expected_revision_matches" ∷ "authority.explicit_and_effective" ∷ "c-1" ∷ "c-2"
      ∷ [];
  failed_conditions = "principal.active" ∷ "c-3" ∷ [];
}

denies : evaluate sample_host denied_request ≡ ok denied_decision
unfolding evaluate structural principal authority assess bound_test authority_is_effective
    delegation delegation_checks constrain constrain_all approval conclude outcome_of final_reasons
    note_candidate conclude_authority elem_code reason_value ineffective_codes parse_rfc3339
    is_space lstrip strip normalize_zulu require_offset
denies = refl

reads : operator_view sample_host format denied_request denied_decision ≡ record {
  outcome = "Denied";
  reason = "The requester's account is not active.";
  material_finding = some "usd: x committed against a limit of x (policy 1)";
  next_action = "Reactivate the requester's account, then submit again.";
}
unfolding outcome_value reason_of reason_prose material_finding failed_constraint_finding
    constraint_finding delegation_finding next_action denial_action remedy elem_code reason_value
reads = refl

reason_of-evaluate_test :
    ((Outcome.denied ≡ Outcome.allowed)
      × (reason_of denied_decision
          ≡ "Permitted: the requester holds the required permission and no limit was exceeded."))
    ⊎ ((r : ReasonCode) × (rs : List ReasonCode) × (denied_decision.reason_codes ≡ r ∷ rs)
        × (reason_of denied_decision ≡ reason_prose r)
        × (rank r ≤ 60)
        × All (λ s. rank r ≤ rank s) rs)
reason_of-evaluate_test = reason_of-evaluate sample_host format denied_request denies

next_action-evaluate_example :
    (r : ReasonCode) × (next_action sample_host format denied_request denied_decision
      ≡ remedy "work_request.create" "alice" r)
    × IsEarliest r denied_decision.reason_codes
    × (stage_number r ≤ 5)
next_action-evaluate_example = next_action-evaluate sample_host format denied_request denies refl

stages-proof_view_example :
    (map (λ v. v.stage) (proof_view sample_host denied_request denied_decision).stages
      ≡ stage_order)
    × (concat
          (map (λ v. v.satisfied) (proof_view sample_host denied_request denied_decision).stages)
        ≡ denied_decision.satisfied_conditions)
    × (concat (map (λ v. v.failed) (proof_view sample_host denied_request denied_decision).stages)
        ≡ denied_decision.failed_conditions)
stages-proof_view_example =
    stages-proof_view sample_host denied_request denies (refl, (refl, (refl, (refl, (refl, tt)))))

results-proof_view_example :
    map
      (λ v. v.result)
      (proof_view sample_host denied_request denied_decision).constraints_evaluated
    ≡ "satisfied" ∷ "satisfied" ∷ "failed" ∷ "not_a_gate" ∷ []
results-proof_view_example =
    results-proof_view sample_host denied_request denies (refl, (refl, (refl, (refl, tt))))
      (refl, (refl, (refl, (refl, (refl, tt)))))
