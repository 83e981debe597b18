-- ===== src/Samples/KernelRuns.antt =====
-- The Kernel on the sample request.
use Prim.Native.String.{◌++◌ as text_append}
use connect_governance.Prelude.{
  ℕ, ◌≤◌, ◌≡◌, ◌↔◌, refl, All, false, true, none, some, List, [], ◌∷◌, ok, Any, Merge,
}
use connect_governance.Kernel.Types.{Outcome, ReasonCode, reason_value, DecisionRequest, Decision}
use connect_governance.Kernel.Timestamp.{
  is_space, lstrip, strip, normalize_zulu, require_offset, parse_rfc3339,
}
use connect_governance.Kernel.Evidence.{elem_code}
use connect_governance.Kernel.Authority.{
  candidates, bound_test, authority_is_effective, assess, authority, note_candidate,
  conclude_authority, ineffective_codes,
}
use connect_governance.Kernel.Evaluate.{
  structural, principal, delegation, delegation_checks, constrain, constrain_all, conclude,
  evaluate, approval, outcome_of, final_reasons,
}
use connect_governance.Kernel.Json.{Fields}
use connect_governance.Kernel.Timestamp.Zulu.{parse_rfc3339-zulu}
use connect_governance.Kernel.Authority.Window.{
  InForce, Explains, authority_is_effective-iff-InForce, authority_is_effective-Explains,
}
use connect_governance.Kernel.Evaluate.Demands.{IsApproval}
use connect_governance.Kernel.Evaluate.Verdict.{MeetsAllGates, evaluate_outcome}
use connect_governance.Kernel.Evaluate.Total.{
  IsTimestamp, HasReadableBounds, evaluate_total, evaluate_unread, evaluate-ignores,
}
use connect_governance.Kernel.Evaluate.Reasons.{reason_codes-evaluate}
use connect_governance.Kernel.Evaluate.Order.{conditions, conditions-evaluate}
use connect_governance.Kernel.Evaluate.Stages.{rank, IsStaged, reason_codes-IsStaged}
use connect_governance.Samples.{sample_host}
use connect_governance.Samples.Requests.{expired_evidence, sample_request, sample_decision}

now_parsed : parse_rfc3339 sample_host.fromisoformat "120Z" ≡ ok 120
unfolding parse_rfc3339 is_space lstrip strip normalize_zulu require_offset
now_parsed = refl

-- An approval is asked for: the budget is at its ceiling, and the grant of Genesis is in force.
pub sample_evaluates : evaluate sample_host sample_request ≡ ok sample_decision
unfolding evaluate structural principal authority assess bound_test authority_is_effective
    delegation delegation_checks constrain constrain_all approval conclude outcome_of final_reasons
    note_candidate conclude_authority elem_code reason_value ineffective_codes parse_rfc3339
    is_space lstrip strip normalize_zulu require_offset
sample_evaluates = refl

-- The verdict on the relationship that has expired.
sample_verdict :
    authority_is_effective sample_host expired_evidence "120Z"
    ≡ ok (false, some ReasonCode.authority_expired)
unfolding authority_is_effective bound_test parse_rfc3339 is_space lstrip strip normalize_zulu
    require_offset
sample_verdict = refl

ready : IsTimestamp sample_host "120Z"
ready = (120, now_parsed)

readable : All (HasReadableBounds sample_host) (candidates sample_request)
unfolding parse_rfc3339 is_space lstrip strip normalize_zulu require_offset
readable = ((tt, (100, refl), (110, refl)), ((tt, (100, refl), tt), tt))

evaluate_outcome_example :
    ((sample_decision.outcome ≡ Outcome.denied) ↔ (¬ MeetsAllGates sample_host sample_request))
    × ((sample_decision.outcome ≡ Outcome.approval_required)
        ↔ (MeetsAllGates sample_host sample_request × Any IsApproval sample_request.constraints))
    × ((sample_decision.outcome ≡ Outcome.allowed) ↔ (
        MeetsAllGates sample_host sample_request × (¬ Any IsApproval sample_request.constraints)))
evaluate_outcome_example = evaluate_outcome sample_host sample_request sample_evaluates

authority_is_effective-iff-InForce_example :
    (authority_is_effective sample_host expired_evidence "120Z" ≡ ok (true, none))
    ↔ InForce sample_host 120 expired_evidence
authority_is_effective-iff-InForce_example =
    authority_is_effective-iff-InForce sample_host expired_evidence "120Z" 120 now_parsed

authority_is_effective-Explains_example :
    Explains sample_host 120 expired_evidence (false, some ReasonCode.authority_expired)
authority_is_effective-Explains_example =
    authority_is_effective-Explains sample_host expired_evidence "120Z" 120 now_parsed
      (false, some ReasonCode.authority_expired) sample_verdict

evaluate_total_example : (d : Decision) × (evaluate sample_host sample_request ≡ ok d)
evaluate_total_example = evaluate_total sample_host sample_request ready readable

reason_codes-evaluate_example :
    ((sample_decision.outcome ≡ Outcome.allowed)
      ↔ (sample_decision.reason_codes ≡ ReasonCode.permitted ∷ []))
    × ((sample_decision.outcome ≡ Outcome.approval_required)
        ↔ (sample_decision.reason_codes ≡ ReasonCode.approval_triggered ∷ []))
    × ((sample_decision.outcome ≡ Outcome.denied) ↔ (
        (r : ReasonCode) × (rs : List ReasonCode) × (sample_decision.reason_codes ≡ r ∷ rs)
        × (rank r ≤ 50)))
reason_codes-evaluate_example = reason_codes-evaluate sample_host sample_request sample_evaluates

conditions-evaluate_example :
    Merge sample_decision.satisfied_conditions sample_decision.failed_conditions
      (conditions sample_request)
conditions-evaluate_example = conditions-evaluate sample_host sample_request sample_evaluates

reason_codes-IsStaged_test : IsStaged sample_decision.reason_codes
reason_codes-IsStaged_test = reason_codes-IsStaged sample_host sample_request sample_evaluates

-- A request with no evidence at all.
abbrev unsupported_request : DecisionRequest ℕ
unsupported_request = record sample_request { authority_evidence = [] }

evaluate_unread_test :
    (d : Decision) × (evaluate sample_host
        (record unsupported_request { evaluation_time = "tomorrow" })
      ≡ ok d)
    × (d.outcome ≡ Outcome.denied)
    × (d.evaluated_at ≡ "tomorrow")
evaluate_unread_test = evaluate_unread sample_host unsupported_request "tomorrow" refl

evaluate-ignores_example :
    evaluate sample_host (record sample_request {
      transition = record sample_request.transition {
        transition_type = "AdministerOrganization";
        target_type = "Organization";
        target_id = none;
        operation = "delete";
        claims = Fields.end;
      };
      authority_evidence = candidates sample_request;
    })
    ≡ evaluate sample_host sample_request
evaluate-ignores_example =
    evaluate-ignores sample_host sample_request "AdministerOrganization" "Organization" "delete"
      none Fields.end

parse_rfc3339-zulu_test :
    (parse_rfc3339 sample_host.fromisoformat (text_append " 120" "Z")
      ≡ parse_rfc3339 sample_host.fromisoformat (text_append " 120" "+00:00"))
    × (parse_rfc3339 sample_host.fromisoformat (text_append " 120" "z")
        ≡ parse_rfc3339 sample_host.fromisoformat (text_append " 120" "+00:00"))
parse_rfc3339-zulu_test = parse_rfc3339-zulu sample_host.fromisoformat " 120"
