-- ===== src/Genesis/Founding.antt =====
-- What Genesis grants: the founding person's requests, evaluated like anyone's.
use connect_governance.Prelude.{
  ℕ, ◌≤◌, String, ◌≡◌, refl, sym, Bool, true, Option, none, some, List, [], ◌∷◌, eq_refl, All,
  if◌then◌else◌, false, ok, inl, inr,
}
use connect_governance.Kernel.Types.{
  Outcome, AuthorityEvidence, Transition, DecisionRequest, Decision,
}
use connect_governance.Kernel.Timestamp.{parse_rfc3339}
use connect_governance.Kernel.Evidence.{Host}
use connect_governance.Kernel.Authority.{is_candidate}
use connect_governance.Kernel.Evaluate.{evaluate}
use connect_governance.Kernel.Evaluate.Total.{HasReadableBounds, evaluate_total}
use connect_governance.Kernel.Evaluate.Demands.{IsFresh, Grants}
use connect_governance.Kernel.Evaluate.Verdict.{MeetsAllGates, evaluate_outcome}
use connect_governance.Codec.{Codec}
use connect_governance.Store.{Database, Session}
use connect_governance.Store.Laws.{get-insert_self, text_same, Merge-single}
use connect_governance.Genesis.{
  GenesisRequest, founding_authorities, founding_grant, founding_person, genesis_result,
  initialize_deployment,
}
use connect_governance.Genesis.Once.{IsUnfounded, Rooted, initialize_deployment_cases}
use connect_governance.Resolution.{
  Facts, evidence_of, evidence_of_all, principal_is_active, resolve_authority_evidence,
  build_decision_request,
}

-- The evidence that the founding grant is resolved to.
abbrev pub founding_evidence : GenesisRequest → AuthorityEvidence
founding_evidence request = record {
  relationship_id = request.authority_id;
  relationship_type = "GenesisGrant";
  principal_id = request.founding_person_id;
  target_id = request.organization_id;
  granted_authorities = founding_authorities;
  effective_from = some request.recorded_at;
  effective_until = none;
  revoked_at = none;
}

-- A request with no fact beyond the governed state.
abbrev pub no_facts : {F : Type 0} → Facts F
no_facts = record {
  work_request_id = none;
  policy_versions = [];
  constraints = [];
  classifications = none;
  cumulative_state = none;
  delegation = none;
  correlation_id = none;
}

module _ {F : Type 0} (host : Host F) (db : Database F) (keys : Codec (List String))
    (request : GenesisRequest) {s t : Session db} (empty : IsUnfounded db s)
    (rooted : Rooted db keys request s t) (written : keys.Holds founding_authorities) where
  founder_is_active : principal_is_active db t request.founding_person_id ≡ true
  unfolding principal_is_active
  founder_is_active = rw (
    get-insert_self db.persons text_same (λ rows r a. a) (founding_person request) s.persons
        (eq_refl request.founding_person_id) rooted.persons,
    principal_is_active,
  )

  authorities_of_root :
      db.authority_relationships.scan t.authority_relationships ≡ founding_grant keys request ∷ []
  authorities_of_root = Merge-single _ (
      rw empty.authorities at
        (db.authority_relationships.insert-some _ s.authority_relationships rooted.authorities).1)

  founder_evidence :
      resolve_authority_evidence db keys t request.founding_person_id
      ≡ ok (founding_evidence request ∷ [])
  unfolding resolve_authority_evidence evidence_of_all evidence_of
  founder_evidence = rw (authorities_of_root, eq_refl) (rw keys.decode-encode refl)

  -- The request that `build_decision_request` makes of the founder's transition.
  abbrev pub founding_request : Transition F → (required at : String) → DecisionRequest F
  founding_request transition required at = record {
    transition = transition;
    principal_active = true;
    required_authority = required;
    current_state_revision = none;
    authority_evidence = founding_evidence request ∷ [];
    policy_versions = [];
    constraints = [];
    classifications = [];
    cumulative_state = [];
    delegation = none;
    evaluation_time = at;
    correlation_id = none;
  }

  build_founding_request :
      (transition : Transition F) (required at : String)
      → transition.proposed_by_principal_id ≡ request.founding_person_id
      → build_decision_request db keys t transition required at no_facts
        ≡ ok (founding_request transition required at)
  unfolding build_decision_request
  build_founding_request transition required at mine =
      rw (mine, founder_evidence, founder_is_active)

  module _ (transition : Transition F) (required at : String)
      (mine : transition.proposed_by_principal_id ≡ request.founding_person_id) {from now : ℕ}
      (recorded : parse_rfc3339 host.fromisoformat request.recorded_at ≡ ok from)
      (timed : parse_rfc3339 host.fromisoformat at ≡ ok now) where
    is_fresh : (expected : Option String) → IsFresh expected none
    is_fresh none = tt
    is_fresh (some e) = tt

    meets_all :
        from ≤ now
        → Grants founding_authorities required
        → MeetsAllGates host (founding_request transition required at)
    meets_all past granted = (
      is_fresh transition.expected_state_revision,
      refl,
      inl (sym mine, granted, now, timed, (tt, (from, recorded, past), tt)),
      tt,
      tt,
    )

    refused_key :
        MeetsAllGates host (founding_request transition required at)
        → Grants founding_authorities required
    refused_key (fresh, active, inl (own, granted, at_time, parsed, held), narrow, met) = granted
    refused_key (fresh, active, inr none_left, narrow, met) = absurd none_left

    -- In the session that Genesis left, the founder's request is evaluated to Allowed for a
    -- founding key, and to Denied for any other.
    decided_in :
        from ≤ now
        → (req : DecisionRequest F) × (d : Decision) × (build_decision_request db keys t transition
              required at no_facts
            ≡ ok req)
          × (evaluate host req ≡ ok d)
          × (Grants founding_authorities required → d.outcome ≡ Outcome.allowed)
          × ((¬ Grants founding_authorities required) → d.outcome ≡ Outcome.denied)
    unfolding principal_is_active
    decided_in past =
        let req = founding_request transition required at in
        let (d, e) =
          evaluate_total host req (now, timed)
            (readable_bounds (is_candidate req (founding_evidence request))) in
        let (denied, asks, allowed) = evaluate_outcome host req e in
        (
          req,
          d,
          build_founding_request transition required at mine,
          e,
          λ granted. allowed.1 (meets_all past granted, λ approval. absurd approval),
          λ n. denied.1 (λ met. n (refused_key met)),
        )
      where
        readable_bounds :
            (b : Bool)
            → All (HasReadableBounds host) (if b then founding_evidence request ∷ [] else [])
        readable_bounds true = ((tt, (from, recorded), tt), tt)
        readable_bounds false = tt

-- Genesis, where there is no Genesis record and no organization, workspace, person, agent or
-- authority relationship, succeeds and leaves a session in which the founding person's requests, with
-- no fact beyond the store, are decided by the ordinary evaluation, if a text can hold the founding
-- keys and `recorded_at` is a timestamp: at any timestamp from then on,
-- `build_decision_request` and `evaluate` return, and the outcome is Allowed for the four founding
-- keys and Denied for every other key, whatever else the transition says.
pub founder_is_decided :
    {F : Type 0} (host : Host F) (db : Database F) (keys : Codec (List String))
    (request : GenesisRequest) (s : Session db) (transition : Transition F) (required at : String)
    {from now : ℕ}
    → IsUnfounded db s
    → keys.Holds founding_authorities
    → transition.proposed_by_principal_id ≡ request.founding_person_id
    → parse_rfc3339 host.fromisoformat request.recorded_at ≡ ok from
    → parse_rfc3339 host.fromisoformat at ≡ ok now
    → from ≤ now
    → (t : Session db) × (req : DecisionRequest F) × (d : Decision) × (initialize_deployment db keys
          request s
        ≡ (ok (genesis_result request), t))
      × (build_decision_request db keys t transition required at no_facts ≡ ok req)
      × (evaluate host req ≡ ok d)
      × (Grants founding_authorities required → d.outcome ≡ Outcome.allowed)
      × ((¬ Grants founding_authorities required) → d.outcome ≡ Outcome.denied)
founder_is_decided host db keys request s transition required at empty written mine recorded timed
      past =
    let (t, done, rooted, completed) = (initialize_deployment_cases db keys request s).0 empty in
    let (req, d, built, decided, granted, other) =
      decided_in host db keys request empty rooted written transition required at mine recorded
        timed past in
    (t, req, d, done, built, decided, granted, other)
