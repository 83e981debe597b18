-- ===== src/Kernel/Evaluate/Verdict.antt =====
-- The three outcomes, against a description of what a request must satisfy to be authorized.
use connect_governance.Prelude.{
  ℕ, ◌≡◌, ◌≢◌, ◌↔◌, Bool, true, false, ◌&&◌, Option, none, some, List, arith, dict_get, All, Any,
  any, all-of_All, All-of_all, any-of_Any, Any-of_any, elem-iff-Any, eq_iff, Error, ok, err, inl,
  inr, refl, not_iff, Result-cases, any-filter, if◌then◌else◌,
}
use connect_governance.Kernel.Types.{
  Outcome, ReasonCode, AuthorityEvidence, Constraint, require_classification, forbid_classification,
  budget_ceiling, require_approval, DecisionRequest, Decision,
}
use connect_governance.Kernel.Timestamp.{parse_rfc3339}
use connect_governance.Kernel.Evidence.{Host}
use connect_governance.Kernel.Authority.{is_candidate, authority_is_effective}
use connect_governance.Kernel.Authority.Window.{
  InForce, Explains, authority_is_effective-iff-InForce, authority_is_effective-Explains,
}
use connect_governance.Kernel.Authority.Assess.{accepts, verdict}
use connect_governance.Kernel.Evaluate.{spent, evaluate}
use connect_governance.Kernel.Evaluate.Gates.{
  asks_approval, meets, authority_held, gates, outcome-evaluate,
}
use connect_governance.Kernel.Evaluate.Demands.{
  IsFresh, Grants, IsNarrowing, IsApproval, IsFresh-iff, IsNarrowing-iff, option_is_iff,
}

-- The outcome of two decided questions.
three_way :
    {G A : Type 0} {o : Outcome} (g a : Bool)
    → (g ≡ true) ↔ G
    → (a ≡ true) ↔ A
    → o ≡ (if g then if a then Outcome.approval_required else Outcome.allowed else Outcome.denied)
    → ((o ≡ Outcome.denied) ↔ (¬ G))
      × ((o ≡ Outcome.approval_required) ↔ (G × A))
      × ((o ≡ Outcome.allowed) ↔ (G × (¬ A)))
three_way true true hg ha e = (
  (λ x. cc, λ n. absurd (n (hg.0 refl))),
  (λ x. (hg.0 refl, ha.0 refl), λ x. e),
  (λ x. cc, λ x. absurd (x.1 (ha.0 refl))),
)
three_way true false hg ha e = (
  (λ x. cc, λ n. absurd (n (hg.0 refl))),
  (λ x. cc, λ x. cc (ha.1 x.1)),
  (λ x. (hg.0 refl, λ y. cc (ha.1 y)), λ x. e),
)
three_way false a hg ha e =
    ((λ x y. cc (hg.1 y), λ n. e), (λ x. cc, λ x. cc (hg.1 x.0)), (λ x. cc, λ x. cc (hg.1 x.0)))

module _ {F : Type 0} (host : Host F) (request : DecisionRequest F) where
  -- The constraint's own condition; an approval is no condition.
  abbrev pub Meets : Constraint F → Type 0
  Meets (require_classification i p key value) = dict_get key request.classifications ≡ some value
  Meets (forbid_classification i p key value) = dict_get key request.classifications ≢ some value
  Meets (budget_ceiling i p key limit) = host.gt (spent host request key) limit ≡ false
  Meets (require_approval i p a) = Unit

  -- An explicit relationship grants the proposing principal the exact key, and is in force.
  abbrev pub Authorizes : AuthorityEvidence → Type 0
  Authorizes ev =
      (ev.principal_id ≡ request.transition.proposed_by_principal_id)
      × Grants ev.granted_authorities request.required_authority
      × (t : ℕ) × (parse_rfc3339 host.fromisoformat request.evaluation_time ≡ ok t)
      × InForce host t ev

  -- Every condition that must hold before an approval is considered.
  abbrev pub MeetsAllGates : Type 0
  MeetsAllGates =
      IsFresh request.transition.expected_state_revision request.current_state_revision
      × (request.principal_active ≡ true)
      × Any Authorizes request.authority_evidence
      × IsNarrowing request.required_authority request.delegation
      × All Meets request.constraints

  Meets-iff : (c : Constraint F) → (meets host request c ≡ true) ↔ Meets c
  Meets-iff (require_classification i p k v) = option_is_iff (dict_get k request.classifications) v
  Meets-iff (forbid_classification i p k v) =
      not_iff _ (option_is_iff (dict_get k request.classifications) v)
  Meets-iff (budget_ceiling i p k l) = (λ h. ground arith, λ h. ground arith)
  Meets-iff (require_approval i p a) = (λ h. tt, λ h. ground arith)

  InForce-of_accepts :
      (t : ℕ) (ev : AuthorityEvidence) (v : Bool × Option ReasonCode)
      → accepts (ok v) ≡ true
      → Explains host t ev v
      → InForce host t ev
  InForce-of_accepts t ev (true, none) h x = x
  InForce-of_accepts t ev (true, some why) h x = absurd x
  InForce-of_accepts t ev (false, why) h x = cc

  verdict_unparsed :
      (ev : AuthorityEvidence) {e : Error}
      → parse_rfc3339 host.fromisoformat request.evaluation_time ≡ err e
      → accepts (verdict host request.evaluation_time ev) ≡ false
  unfolding authority_is_effective
  verdict_unparsed ev h = rw h

  -- A verdict of an effective authority needs an evaluation time, at which it is in force.
  accepts_iff :
      (ev : AuthorityEvidence)
      → (accepts (verdict host request.evaluation_time ev) ≡ true) ↔ (
          (t : ℕ) × (parse_rfc3339 host.fromisoformat request.evaluation_time ≡ ok t)
          × InForce host t ev)
  accepts_iff ev = (to, from)
    where
      to :
          accepts (verdict host request.evaluation_time ev) ≡ true
          → (t : ℕ) × (parse_rfc3339 host.fromisoformat request.evaluation_time ≡ ok t)
            × InForce host t ev
      to h = elim (Result-cases (parse_rfc3339 host.fromisoformat request.evaluation_time)) [
        | inl (t, p) ↦ elim (Result-cases (verdict host request.evaluation_time ev)) [
          | inl (v, e) ↦ (
            t,
            p,
            InForce-of_accepts t ev v (rw e at h)
                (authority_is_effective-Explains host ev request.evaluation_time t p v e),
          )
          | inr (x, e) ↦ cc (rw e at h)
        ]
        | inr (x, p) ↦ cc (verdict_unparsed ev p)
      ]

      from :
          (t : ℕ) × (parse_rfc3339 host.fromisoformat request.evaluation_time ≡ ok t)
            × InForce host t ev
          → accepts (verdict host request.evaluation_time ev) ≡ true
      from (t, p, f) =
          rw ((authority_is_effective-iff-InForce host ev request.evaluation_time t p).1 f)

  -- A candidate with an effective verdict authorizes the request, and the other way round.
  Authorizes-iff :
      (ev : AuthorityEvidence)
      → ((is_candidate request ev && accepts (verdict host request.evaluation_time ev)) ≡ true)
        ↔ Authorizes ev
  Authorizes-iff ev =
      let same = eq_iff ev.principal_id request.transition.proposed_by_principal_id in
      let keys = elem-iff-Any request.required_authority ev.granted_authorities in
      let timed = accepts_iff ev in
      (
        λ h.
            let (t, p, f) = timed.0 (ground arith) in
            (same.0 (ground arith), keys.0 (ground arith), t, p, f),
        λ (a, b, t, p, f). ground (arith, same.1 a, keys.1 b, timed.1 (t, p, f)),
      )

  authority_held_iff :
      (authority_held host request ≡ true) ↔ Any Authorizes request.authority_evidence
  authority_held_iff = rw any-filter (
    Any-of_any _ _ (λ ev. (Authorizes-iff ev).0) request.authority_evidence,
    any-of_Any _ _ (λ ev. (Authorizes-iff ev).1) request.authority_evidence,
  )

  gates_iff : (gates host request ≡ true) ↔ MeetsAllGates
  gates_iff =
      let fresh =
        IsFresh-iff request.transition.expected_state_revision request.current_state_revision in
      let narrow = IsNarrowing-iff request.required_authority request.delegation in
      (
        λ h. (
          fresh.0 (ground arith),
          ground arith,
          authority_held_iff.0 (ground arith),
          narrow.0 (ground arith),
          All-of_all _ _ (λ c. (Meets-iff c).0) request.constraints (ground arith),
        ),
        λ (a, b, c, d, e). ground (
          arith,
          fresh.1 a,
          authority_held_iff.1 c,
          narrow.1 d,
          all-of_All _ _ (λ c. (Meets-iff c).1) request.constraints e,
        ),
      )

  asks_approval_iff : (c : Constraint F) → (asks_approval c ≡ true) ↔ IsApproval c
  asks_approval_iff (require_approval i p a) = (λ h. tt, λ h. ground arith)
  asks_approval_iff (require_classification i p k v) = (λ h. cc, λ h. absurd h)
  asks_approval_iff (forbid_classification i p k v) = (λ h. cc, λ h. absurd h)
  asks_approval_iff (budget_ceiling i p k l) = (λ h. cc, λ h. absurd h)

  IsApproval-iff :
      (cs : List (Constraint F)) → (any (asks_approval {F = F}) cs ≡ true) ↔ Any IsApproval cs
  IsApproval-iff cs = (
    Any-of_any _ _ (λ c. (asks_approval_iff c).0) cs,
    any-of_Any _ _ (λ c. (asks_approval_iff c).1) cs,
  )

  -- Whatever `evaluate` returns: the outcome is Denied exactly when a gate is not met,
  -- ApprovalRequired exactly when all gates are met and a constraint asks for an approval, and
  -- Allowed exactly when all gates are met and none asks. So an approval rescues no denial.
  pub evaluate_outcome :
      {d : Decision}
      → evaluate host request ≡ ok d
      → ((d.outcome ≡ Outcome.denied) ↔ (¬ MeetsAllGates))
        × ((d.outcome ≡ Outcome.approval_required)
            ↔ (MeetsAllGates × Any IsApproval request.constraints))
        × ((d.outcome ≡ Outcome.allowed) ↔ (MeetsAllGates × (¬ Any IsApproval request.constraints)))
  evaluate_outcome h =
      three_way _ _ gates_iff (IsApproval-iff request.constraints) (outcome-evaluate host request h)
