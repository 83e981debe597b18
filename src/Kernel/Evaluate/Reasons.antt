-- ===== src/Kernel/Evaluate/Reasons.antt =====
-- Every failure is explained by a reason code, and a reason code of a gate means a failure.
use connect_governance.Prelude.{
  ◌≤◌, All, String, ◌≡◌, ◌↔◌, refl, sym, List, [], ◌∷◌, ◌++◌, arith, is_nil, ok,
}
use connect_governance.Kernel.Types.{Outcome, ReasonCode, DecisionRequest, Decision}
use connect_governance.Kernel.Evidence.{Host, Evidence}
use connect_governance.Kernel.Evaluate.{approval, conclude, outcome_of, final_reasons, evaluate}
use connect_governance.Kernel.Evaluate.Stages.{rank, UpTo-gathered}
use connect_governance.Kernel.Evaluate.Gates.{gathered, evaluate-eq-ok}
use connect_governance.Kernel.Evaluate.Explained.{IsExplained-gathered}

-- What the last two steps of `evaluate` make of the lists.
abbrev Tells : Evidence → Type 0
Tells ev =
    ((outcome_of (approval ev) ≡ Outcome.allowed)
      ↔ (final_reasons (approval ev) ≡ ReasonCode.permitted ∷ []))
    × ((outcome_of (approval ev) ≡ Outcome.approval_required)
        ↔ (final_reasons (approval ev) ≡ ReasonCode.approval_triggered ∷ []))
    × ((outcome_of (approval ev) ≡ Outcome.denied) ↔ (
        (r : ReasonCode) × (rs : List ReasonCode) × (final_reasons (approval ev) ≡ r ∷ rs)
        × (rank r ≤ 50)))

-- A code that has a gate's rank is neither of the two last ones.
head_rank :
    {r s : ReasonCode} {rs ss : List ReasonCode} → r ∷ rs ≡ s ∷ ss → rank r ≤ 50 → rank s ≤ 50
head_rank {r} {s} h l = let e : r ≡ s = cc in rw (← e) l

module _ (satisfied resolved : List String) where
  codes_tell :
      (reasons : List ReasonCode) (failed approvals : List String)
      → is_nil reasons ≡ is_nil failed
      → All (λ r. rank r ≤ 50) reasons
      → Tells (record {
        reasons = reasons;
        satisfied = satisfied;
        failed = failed;
        resolved = resolved;
        approvals = approvals;
      })
  unfolding approval outcome_of final_reasons
  codes_tell [] [] [] e b = (
    (λ h. refl, λ h. refl),
    (λ h. cc, λ h. cc),
    (λ h. cc, λ (r, rs, h, l). absurd (omega (arith, head_rank (sym h) l))),
  )
  codes_tell [] [] (a ∷ ids) e b = (
    (λ h. cc, λ h. cc),
    (λ h. refl, λ h. refl),
    (λ h. cc, λ (r, rs, h, l). absurd (omega (arith, head_rank (sym h) l))),
  )
  codes_tell [] (f ∷ fs) ids e b = cc
  codes_tell (r ∷ rs) [] ids e b = cc
  codes_tell (r ∷ rs) (f ∷ fs) [] e b = (
    (λ h. cc, λ h. absurd (omega (arith, head_rank h b.0))),
    (λ h. cc, λ h. absurd (omega (arith, head_rank h b.0))),
    (λ h. (r, rs, refl, b.0), λ h. refl),
  )
  codes_tell (r ∷ rs) (f ∷ fs) (a ∷ ids) e b = (
    (λ h. cc, λ h. absurd (omega (arith, head_rank h b.0))),
    (λ h. cc, λ h. absurd (omega (arith, head_rank h b.0))),
    (λ h. (r, rs ++ ReasonCode.approval_triggered ∷ [], refl, b.0), λ h. refl),
  )

module _ {F : Type 0} (host : Host F) (request : DecisionRequest F) where
  -- The reason codes tell the outcome: a Decision is Allowed exactly if `permitted` is its one
  -- code, ApprovalRequired exactly if the approval's code is its one code, and Denied exactly if
  -- its first code is that of a gate, one of the structural to the constraints stage.
  pub reason_codes-evaluate :
      {d : Decision}
      → evaluate host request ≡ ok d
      → ((d.outcome ≡ Outcome.allowed) ↔ (d.reason_codes ≡ ReasonCode.permitted ∷ []))
        × ((d.outcome ≡ Outcome.approval_required)
            ↔ (d.reason_codes ≡ ReasonCode.approval_triggered ∷ []))
        × ((d.outcome ≡ Outcome.denied) ↔ (
            (r : ReasonCode) × (rs : List ReasonCode) × (d.reason_codes ≡ r ∷ rs) × (rank r ≤ 50)))
  unfolding conclude
  reason_codes-evaluate h =
      let (found, e, e') = evaluate-eq-ok host request h in
      let ev = gathered host request found in
      rw e' (
        codes_tell ev.satisfied ev.resolved ev.reasons ev.failed ev.approvals
          (IsExplained-gathered host request e).same (UpTo-gathered host request found).below)
