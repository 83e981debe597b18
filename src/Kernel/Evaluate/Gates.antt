-- ===== src/Kernel/Evaluate/Gates.antt =====
-- The gates of `evaluate` as tests on the request, and what each stage makes of them.
use connect_governance.Prelude.{
  String, ◌≡◌, refl, Bool, true, false, not, ◌&&◌, Option, none, some, List, [], ◌∷◌, arith, elem,
  ◌++◌, is_nil, is_nil-append, dict_get, all, any, is_nil-filter, if◌then◌else◌, ok, Result-cases,
  inl, inr,
}
use connect_governance.Kernel.Types.{
  Outcome, Constraint, require_classification, forbid_classification, budget_ceiling,
  require_approval, DecisionRequest, Decision, DelegationContext,
}
use connect_governance.Kernel.Evidence.{Host, Evidence, no_evidence}
use connect_governance.Kernel.Authority.{
  candidates, assess, conclude_authority, authority, Assessment,
}
use connect_governance.Kernel.Authority.Assess.{accepts, verdict, assess-effective}
use connect_governance.Kernel.Evaluate.{
  revision_differs, option_is, too_deep, structural, principal, delegation_checks, delegation,
  spent, constrain, constrain_all, approval, conclude, outcome_of, evaluate,
}

abbrev pub delegation_within : String → Option DelegationContext → Bool
delegation_within required none = true
delegation_within required (some d) =
    not (too_deep d.depth d.max_depth) && elem required d.granting_authorities

abbrev pub asks_approval : {F : Type 0} → Constraint F → Bool
asks_approval (require_approval i p a) = true
asks_approval _ = false

abbrev pub revision_current : {F : Type 0} → DecisionRequest F → Bool
revision_current request =
    not (revision_differs request.transition.expected_state_revision request.current_state_revision)

module _ {F : Type 0} (request : DecisionRequest F) (ev : Evidence) where
  failed-structural :
      is_nil (structural request ev).failed ≡ (is_nil ev.failed && revision_current request)
  unfolding structural
  failed-structural =
      ground (arith, is_nil-append ev.failed ("structural.expected_revision_matches" ∷ []))

  failed-principal :
      is_nil (principal request ev).failed ≡ (is_nil ev.failed && request.principal_active)
  unfolding principal
  failed-principal = ground (arith, is_nil-append ev.failed ("principal.active" ∷ []))

failed-delegation_checks :
    (required : String) (d : Option DelegationContext) (ev : Evidence)
    → is_nil (delegation_checks required d ev).failed
      ≡ (is_nil ev.failed && delegation_within required d)
unfolding delegation_checks
failed-delegation_checks required none ev = ground arith
failed-delegation_checks required (some d) ev = ground (
  arith,
  is_nil-append ev.failed ("delegation.within_depth" ∷ []),
  is_nil-append ev.failed ("delegation.subset_of_grant" ∷ []),
  is_nil-append (ev.failed ++ "delegation.within_depth" ∷ []) ("delegation.subset_of_grant" ∷ []),
)

module _ {F : Type 0} (host : Host F) (request : DecisionRequest F) where
  abbrev pub meets : Constraint F → Bool
  meets (require_classification i p key value) =
      option_is (dict_get key request.classifications) value
  meets (forbid_classification i p key value) =
      not (option_is (dict_get key request.classifications) value)
  meets (budget_ceiling i p key limit) = not (host.gt (spent host request key) limit)
  meets (require_approval i p a) = true

  failed-constrain :
      (c : Constraint F) (ev : Evidence)
      → is_nil (constrain host request c ev).failed ≡ (is_nil ev.failed && meets c)
  unfolding constrain
  failed-constrain (require_approval i p a) ev = ground arith
  failed-constrain (require_classification i p k v) ev =
      ground (arith, is_nil-append ev.failed (i ∷ []))
  failed-constrain (forbid_classification i p k v) ev =
      ground (arith, is_nil-append ev.failed (i ∷ []))
  failed-constrain (budget_ceiling i p k l) ev = ground (arith, is_nil-append ev.failed (i ∷ []))

  approvals-constrain :
      (c : Constraint F) (ev : Evidence)
      → is_nil (constrain host request c ev).approvals
        ≡ (is_nil ev.approvals && not (asks_approval c))
  unfolding constrain
  approvals-constrain (require_approval i p a) ev =
      ground (arith, is_nil-append ev.approvals (a ∷ []))
  approvals-constrain _ ev = ground arith

  pub failed-constrain_all :
      (cs : List (Constraint F)) (ev : Evidence)
      → is_nil (constrain_all host request cs ev).failed ≡ (is_nil ev.failed && all meets cs)
  unfolding constrain_all
  failed-constrain_all [] ev = ground arith
  failed-constrain_all (c ∷ cs) ev =
      ground (arith, failed-constrain_all cs (constrain host request c ev), failed-constrain c ev)

  pub approvals-constrain_all :
      (cs : List (Constraint F)) (ev : Evidence)
      → is_nil (constrain_all host request cs ev).approvals
        ≡ (is_nil ev.approvals && not (any asks_approval cs))
  unfolding constrain_all
  approvals-constrain_all [] ev = ground arith
  approvals-constrain_all (c ∷ cs) ev =
      ground
        (arith, approvals-constrain_all cs (constrain host request c ev), approvals-constrain c ev)

  -- Some candidate is effective at the evaluation time.
  abbrev pub authority_held : Bool
  authority_held =
      any (λ ev. accepts (verdict host request.evaluation_time ev)) (candidates request)

  failed-conclude_authority :
      (b : Bool) (found : Assessment) (ev : Evidence)
      → is_nil (conclude_authority b found ev).failed ≡ (is_nil ev.failed && not (is_nil found.0))
  unfolding conclude_authority
  failed-conclude_authority b ([], codes) ev =
      ground (arith, is_nil-append ev.failed ("authority.explicit_and_effective" ∷ []))
  failed-conclude_authority b (e ∷ es, codes) ev = ground arith

  -- All six stages' gates.
  abbrev pub gates : Bool
  gates =
      revision_current request
      && request.principal_active
      && authority_held
      && delegation_within request.required_authority request.delegation
      && all meets request.constraints

  -- The evidence once every stage has run, when the candidates' assessment is `found`.
  abbrev pub gathered : Assessment → Evidence
  gathered found = constrain_all host request request.constraints (
      delegation request (
        conclude_authority (not (is_nil (candidates request))) found
          (principal request (structural request no_evidence))))

  pub evaluate-eq-ok :
      {d : Decision}
      → evaluate host request ≡ ok d
      → (found : Assessment) × (assess host (candidates request) request.evaluation_time ([], [])
          ≡ ok found)
        × (d ≡ conclude request (approval (gathered found)))
  unfolding evaluate authority
  evaluate-eq-ok h =
      elim (Result-cases (assess host (candidates request) request.evaluation_time ([], []))) [
        | inl (found, e) ↦ (found, e, cc (rw e at h))
        | inr (x, e) ↦ cc (rw e at h)
      ]

  pub failed-gathered :
      {found : Assessment}
      → assess host (candidates request) request.evaluation_time ([], []) ≡ ok found
      → is_nil (gathered found).failed ≡ gates
  unfolding delegation
  failed-gathered {found} h =
      let held : is_nil found.0 ≡ not authority_held =
        rw (assess-effective host request.evaluation_time (candidates request) ([], []) h)
          (is_nil-filter _ (candidates request)) in
      rw
        (
          failed-constrain_all, failed-delegation_checks, failed-conclude_authority,
          failed-principal, failed-structural, held,
        )
        (ground arith)

  approvals-conclude_authority :
      (b : Bool) (found : Assessment) (ev : Evidence)
      → (conclude_authority b found ev).approvals ≡ ev.approvals
  unfolding conclude_authority
  approvals-conclude_authority b ([], codes) ev = refl
  approvals-conclude_authority b (e ∷ es, codes) ev = refl

  approvals-delegation : (ev : Evidence) → (delegation request ev).approvals ≡ ev.approvals
  unfolding delegation delegation_checks
  approvals-delegation ev = ground arith

  pub approvals-gathered :
      (found : Assessment)
      → is_nil (gathered found).approvals ≡ not (any asks_approval request.constraints)
  unfolding structural principal
  approvals-gathered found =
      rw (approvals-constrain_all, approvals-delegation, approvals-conclude_authority)
        (ground arith)

  -- The outcome, when `evaluate` returns one, is read off the gates and the constraints.
  pub outcome-evaluate :
      {d : Decision}
      → evaluate host request ≡ ok d
      → d.outcome ≡ (
          if gates
          then if any asks_approval request.constraints
            then Outcome.approval_required
            else Outcome.allowed
          else Outcome.denied)
  unfolding conclude outcome_of approval
  outcome-evaluate h =
      let (found, e, e') = evaluate-eq-ok h in
      rw e' (ground (arith, failed-gathered e, approvals-gathered found))
