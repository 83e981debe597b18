-- ===== src/Resolution/Outcome.antt =====
-- The outcome of a request that was resolved from the store, in terms of the store's rows.
use connect_governance.Prelude.{
  String, ◌≡◌, sym, ◌∙◌, ap, subst, ◌↔◌, true, List, Any, All, ok, >>=-eq-ok,
}
use connect_governance.Kernel.Types.{
  Outcome, AuthorityEvidence, DecisionRequest, Decision, Transition,
}
use connect_governance.Kernel.Evidence.{Host}
use connect_governance.Kernel.Evaluate.{evaluate}
use connect_governance.Kernel.Evaluate.Demands.{IsFresh, IsNarrowing, IsApproval}
use connect_governance.Kernel.Evaluate.Verdict.{Meets, MeetsAllGates, Authorizes, evaluate_outcome}
use connect_governance.Codec.{Codec}
use connect_governance.Store.{Database, Session}
use connect_governance.Resolution.{
  Facts, principal_is_active, resolve_authority_evidence, revision_of, or_empty,
  build_decision_request,
}
use connect_governance.Resolution.Grounds.{
  IsGranted, Any-weaken, principal_of_row, resolve_authority_evidence_iff,
}

-- The three outcomes, by what holds.
abbrev pub ThreeWay : Outcome → (G A : Type 0) → Type 0
ThreeWay o G A =
    ((o ≡ Outcome.denied) ↔ (¬ G))
    × ((o ≡ Outcome.approval_required) ↔ (G × A))
    × ((o ≡ Outcome.allowed) ↔ (G × (¬ A)))

pub along : {o : Outcome} {G H A : Type 0} → G ↔ H → ThreeWay o G A → ThreeWay o H A
along (to, from) ((d, d'), (q, q'), (a, a')) = (
  (λ e h. d e (from h), λ n. d' (λ g. n (to g))),
  (λ e. let (g, w) = q e in (to g, w), λ (h, w). q' (from h, w)),
  (λ e. let (g, w) = a e in (to g, w), λ (h, w). a' (from h, w)),
)

module _ {F : Type 0} (host : Host F) (db : Database F) (keys : Codec (List String)) where
  module _ (s : Session db) (transition : Transition F) (key at : String) (facts : Facts F) where
    abbrev pub proposer : String
    proposer = transition.proposed_by_principal_id

    -- The request with the evidence that was resolved.
    abbrev request_with : List AuthorityEvidence → DecisionRequest F
    request_with evs = record {
      transition = transition;
      principal_active = principal_is_active db s proposer;
      required_authority = key;
      current_state_revision = revision_of db s facts.work_request_id;
      authority_evidence = evs;
      policy_versions = facts.policy_versions;
      constraints = facts.constraints;
      classifications = or_empty facts.classifications;
      cumulative_state = or_empty facts.cumulative_state;
      delegation = facts.delegation;
      evaluation_time = at;
      correlation_id = facts.correlation_id;
    }

    build-eq-ok :
        {req : DecisionRequest F}
        → build_decision_request db keys s transition key at facts ≡ ok req
        → (evs : List AuthorityEvidence) × (resolve_authority_evidence db keys s proposer ≡ ok evs)
          × (request_with evs ≡ req)
    unfolding build_decision_request
    build-eq-ok h =
        let (evs, e, e') = >>=-eq-ok (resolve_authority_evidence db keys s proposer) _ h in
        (evs, e, cc)

    authorized_iff :
        {evs : List AuthorityEvidence}
        → resolve_authority_evidence db keys s proposer ≡ ok evs
        → Any (Authorizes host (request_with evs)) evs ↔ IsGranted host db keys s proposer key at
    authorized_iff {evs} h =
        let rows = db.authority_relationships.scan s.authority_relationships in
        let there =
          resolve_authority_evidence_iff keys (Authorizes host (request_with evs)) db s proposer
            h in
        (
          λ w.
              Any-weaken host db keys _ _ rows
                (λ r (own, (ev, read, (own', granted, t, parsed, f))).
                  (own, (ev, read, (granted, t, parsed, f))))
                (there.0 w),
          λ w. there.1 (
              Any-weaken host db keys _ _ rows
                (λ r (own, (ev, read, (granted, t, parsed, f))). (
                  own,
                  (
                    ev,
                    read,
                    (sym (principal_of_row host db keys r read) ∙ own, granted, t, parsed, f),
                  ),
                ))
                w),
        )

    -- What the governed state must show for the transition.
    abbrev pub IsAuthorized : DecisionRequest F → Type 0
    IsAuthorized req =
        IsFresh transition.expected_state_revision (revision_of db s facts.work_request_id)
        × (principal_is_active db s proposer ≡ true)
        × IsGranted host db keys s proposer key at
        × IsNarrowing key facts.delegation
        × All (Meets host req) facts.constraints

    gates_iff :
        {req : DecisionRequest F}
        → build_decision_request db keys s transition key at facts ≡ ok req
        → MeetsAllGates host req ↔ IsAuthorized req
    gates_iff h =
        let (evs, e, same) = build-eq-ok h in
        let granted = authorized_iff e in
        subst (λ x. MeetsAllGates host x ↔ IsAuthorized x) same
          (
            λ (fresh, active, held, narrow, met). (fresh, active, granted.0 held, narrow, met),
            λ (fresh, active, held, narrow, met). (fresh, active, granted.1 held, narrow, met),
          )

    -- The outcome of a request that was built from the store, by the functions that resolve it.
    pub resolved_outcome :
        {req : DecisionRequest F} {d : Decision}
        → build_decision_request db keys s transition key at facts ≡ ok req
        → evaluate host req ≡ ok d
        → ((d.outcome ≡ Outcome.denied) ↔ (¬ IsAuthorized req))
          × ((d.outcome ≡ Outcome.approval_required)
              ↔ (IsAuthorized req × Any IsApproval facts.constraints))
          × ((d.outcome ≡ Outcome.allowed)
              ↔ (IsAuthorized req × (¬ Any IsApproval facts.constraints)))
    resolved_outcome {req} {d} h e =
        let (evs, r, same) = build-eq-ok h in
        let constrained : req.constraints ≡ facts.constraints =
          ap (λ (x : DecisionRequest F). x.constraints) (sym same) in
        along (gates_iff h) (
          subst (λ cs. ThreeWay d.outcome (MeetsAllGates host req) (Any IsApproval cs)) constrained
            (evaluate_outcome host req e))
