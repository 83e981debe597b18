-- ===== src/Kernel/Evaluate/Total.antt =====
-- When `evaluate` returns, and what it reads of the request.
use connect_governance.Prelude.{
  ℕ, String, ◌≡◌, refl, Bool, Option, none, some, List, [], ◌∷◌, arith, filter-filter, true, false,
  if◌then◌else◌, All, Result-cases, ap, ◌∙◌, ok, inl, inr, leb, ltb,
}
use connect_governance.Kernel.Types.{
  Outcome, ReasonCode, AuthorityEvidence, Constraint, require_classification, forbid_classification,
  budget_ceiling, require_approval, DecisionRequest, Decision,
}
use connect_governance.Kernel.Json.{Fields}
use connect_governance.Kernel.Timestamp.{parse_rfc3339}
use connect_governance.Kernel.Evidence.{Host, Evidence}
use connect_governance.Kernel.Authority.{
  is_candidate, candidates, bound_test, authority_is_effective, assess, authority,
}
use connect_governance.Kernel.Authority.Assess.{assess_total}
use connect_governance.Kernel.Evaluate.Gates.{evaluate-eq-ok, outcome-evaluate}
use connect_governance.Kernel.Evaluate.{
  structural, principal, delegation, constrain, constrain_all, conclude, evaluate,
}

module _ {F : Type 0} (host : Host F) where
  -- The text is a timestamp with an offset.
  abbrev pub IsTimestamp : String → Type 0
  IsTimestamp value = (t : ℕ) × (parse_rfc3339 host.fromisoformat value ≡ ok t)

  abbrev pub IsReadable : Option String → Type 0
  IsReadable none = Unit
  IsReadable (some value) = IsTimestamp value

  -- Every bound that is given is a timestamp with an offset.
  abbrev pub HasReadableBounds : AuthorityEvidence → Type 0
  HasReadableBounds ev =
      IsReadable ev.revoked_at × IsReadable ev.effective_from × IsReadable ev.effective_until

  pub bound_test_total :
      (o : Option String) (test : ℕ → Bool)
      → IsReadable o
      → (b : Bool) × (bound_test host o test ≡ ok b)
  unfolding bound_test
  bound_test_total none test r = (false, refl)
  bound_test_total (some value) test (t, e) = (test t, rw e)

  verdict_total :
      (ev : AuthorityEvidence) (at : String)
      → IsTimestamp at
      → HasReadableBounds ev
      → (v : Bool × Option ReasonCode) × (authority_is_effective host ev at ≡ ok v)
  unfolding authority_is_effective
  verdict_total ev at (t, e) (r, f, u) =
      let (b, eb) = bound_test_total ev.revoked_at (λ x. leb x t) r in
      let (c, ec) = bound_test_total ev.effective_from (λ x. ltb t x) f in
      let (d, ed) = bound_test_total ev.effective_until (λ x. leb x t) u in
      (
        if b
            then (false, some ReasonCode.authority_revoked)
            else if c
            then (false, some ReasonCode.authority_not_yet_effective)
            else if d
            then (false, some ReasonCode.authority_expired)
            else (true, none),
        ground arith,
      )

  All-map :
      (P Q : AuthorityEvidence → Type 0) (xs : List AuthorityEvidence)
      → ((ev : AuthorityEvidence) → P ev → Q ev)
      → All P xs
      → All Q xs
  All-map P Q [] f h = tt
  All-map P Q (x ∷ xs) f h = (f x h.0, All-map P Q xs f h.1)

  -- `evaluate` returns a Decision when the evaluation time, and each bound that a candidate gives,
  -- is a timestamp with an offset: nothing else can make it raise.
  pub evaluate_total :
      (request : DecisionRequest F)
      → IsTimestamp request.evaluation_time
      → All HasReadableBounds (candidates request)
      → (d : Decision) × (evaluate host request ≡ ok d)
  unfolding evaluate authority
  evaluate_total request timed bounds =
      let (found, e) =
        assess_total host request.evaluation_time (candidates request) ([], [])
          (All-map HasReadableBounds _ (candidates request)
            (λ ev. verdict_total ev request.evaluation_time timed) bounds) in
      elim (Result-cases (evaluate host request)) [
        | inl returned ↦ returned
        | inr (x, raised) ↦ cc (rw e at raised)
      ]

  -- Without a candidate no timestamp is read: `evaluate` denies whatever its evaluation time says.
  pub evaluate_unread :
      (request : DecisionRequest F) (at : String)
      → candidates request ≡ []
      → (d : Decision) × (evaluate host (record request { evaluation_time = at }) ≡ ok d)
        × (d.outcome ≡ Outcome.denied)
        × (d.evaluated_at ≡ at)
  unfolding evaluate authority assess conclude
  evaluate_unread request at none_there =
      let changed : DecisionRequest F = record request { evaluation_time = at } in
      let nobody : candidates changed ≡ [] = none_there in
      elim (Result-cases (evaluate host changed)) [
        | inl (d, returned) ↦
            let (found, e, e') = evaluate-eq-ok host changed returned in
            (
              d,
              returned,
              outcome-evaluate host changed returned ∙ rw nobody (ground arith),
              ap (λ (x : Decision). x.evaluated_at) e',
            )
        | inr (x, raised) ↦ cc (rw nobody at raised)
      ]

  constrain-congr :
      (r s : DecisionRequest F) (c : Constraint F) (ev : Evidence)
      → r.classifications ≡ s.classifications
      → r.cumulative_state ≡ s.cumulative_state
      → constrain host r c ev ≡ constrain host s c ev
  unfolding constrain
  constrain-congr r s (require_classification i p k v) ev h g = rw h
  constrain-congr r s (forbid_classification i p k v) ev h g = rw h
  constrain-congr r s (budget_ceiling i p k l) ev h g = rw g
  constrain-congr r s (require_approval i p a) ev h g = refl

  constrain_all-congr :
      (r s : DecisionRequest F) (cs : List (Constraint F)) (ev : Evidence)
      → r.classifications ≡ s.classifications
      → r.cumulative_state ≡ s.cumulative_state
      → constrain_all host r cs ev ≡ constrain_all host s cs ev
  unfolding constrain_all
  constrain_all-congr r s [] ev h g = refl
  constrain_all-congr r s (c ∷ cs) ev h g =
      rw (constrain-congr r s c ev h g) (constrain_all-congr r s cs (constrain host s c ev) h g)

  -- The fields that no stage reads: `evaluate` gives the same Decision, or raises the same error,
  -- for every type, target, operation and claims of the transition, and
  -- whatever evidence of other principals, or for other keys, is supplied.
  pub evaluate-ignores :
      (request : DecisionRequest F) (transition_type target_type operation : String)
      (target_id : Option String) (claims : Fields F)
      → evaluate host (record request {
        transition = record request.transition {
          transition_type = transition_type;
          target_type = target_type;
          target_id = target_id;
          operation = operation;
          claims = claims;
        };
        authority_evidence = candidates request;
      })
        ≡ evaluate host request
  unfolding evaluate authority structural principal delegation conclude
  evaluate-ignores request transition_type target_type operation target_id claims =
      let changed : DecisionRequest F = record request {
        transition = record request.transition {
          transition_type = transition_type;
          target_type = target_type;
          target_id = target_id;
          operation = operation;
          claims = claims;
        };
        authority_evidence = candidates request;
      } in
      let relevant : candidates changed ≡ candidates request =
        filter-filter (is_candidate request) request.authority_evidence in
      elim (Result-cases (assess host (candidates request) request.evaluation_time ([], []))) [
        | inl (found, e) ↦ rw (relevant, e) (rw (constrain_all-congr changed request) refl)
        | inr (x, e) ↦ rw (relevant, e)
      ]
