-- ===== src/Resolution/Rows.antt =====
-- src/connect_governance/resolution.py: a request from the store, judged by the columns of the rows.
use connect_governance.Prelude.{
  ℕ, ◌≤◌, ◌<◌, String, ◌≡◌, refl, sym, subst, ◌↔◌, ◌⊎◌, inl, inr, true, none, some, List, Any, All,
  ok, >>=-eq-ok, Option-cases,
}
use connect_governance.Kernel.Types.{
  Outcome, AuthorityEvidence, DecisionRequest, Decision, Transition,
}
use connect_governance.Kernel.Timestamp.{parse_rfc3339}
use connect_governance.Kernel.Evidence.{Host}
use connect_governance.Kernel.Authority.Window.{Bounded}
use connect_governance.Kernel.Evaluate.{evaluate}
use connect_governance.Kernel.Evaluate.Demands.{IsNarrowing, IsApproval}
use connect_governance.Kernel.Evaluate.Verdict.{Meets}
use connect_governance.Codec.{Codec}
use connect_governance.Schema.{Agent, AuthorityRelationship, Person}
use connect_governance.Store.{Database, Session}
use connect_governance.Resolution.{
  Facts, evidence_of, agent_is_active, principal_is_active, build_decision_request,
}
use connect_governance.Resolution.Grounds.{Any-weaken, Grounds, Relates}
use connect_governance.Resolution.Outcome.{IsAuthorized, along, resolved_outcome}
use connect_governance.Resolution.Revisions.{IsNumbered, IsUpToDate, IsFresh-iff-IsUpToDate}

module _ {F : Type 0} (host : Host F) (db : Database F) (keys : Codec (List String)) where
  module _ (s : Session db) where
    -- The person of the id is active; or no person has the id, and the agent of the id is active.
    abbrev pub IsActivePrincipal : String → Type 0
    IsActivePrincipal p =
        ((x : Person) × (db.persons.get s.persons p ≡ some x) × (x.active ≡ true))
        ⊎ ((db.persons.get s.persons p ≡ none)
            × (a : Agent) × (db.agents.get s.agents p ≡ some a)
            × (a.active ≡ true))

    IsActivePrincipal-iff : (p : String) → (principal_is_active db s p ≡ true) ↔ IsActivePrincipal p
    unfolding principal_is_active agent_is_active
    IsActivePrincipal-iff p = elim (Option-cases (db.persons.get s.persons p)) [
      | inr (x, e) ↦ (
        λ h. inl (x, e, rw (principal_is_active, e) at h),
        λ h. elim h [
          | inl (y, same, active) ↦ rw (principal_is_active, same) active
          | inr (gone, b, same, active) ↦ cc
        ],
      )
      | inl e ↦ elim (Option-cases (db.agents.get s.agents p)) [
        | inr (a, e') ↦ (
          λ h. inr (e, a, e', rw (principal_is_active, e, e', agent_is_active) at h),
          λ h. elim h [
            | inl (y, same, active) ↦ cc
            | inr (gone, b, same, active) ↦
                rw (principal_is_active, gone, same, agent_is_active) active
          ],
        )
        | inl e' ↦ (
          λ h. cc (rw (principal_is_active, e, e', agent_is_active) at h),
          λ h. elim h [ inl (y, same, active) ↦ cc | inr (gone, b, same, active) ↦ cc ],
        )
      ]
    ]

  -- The row names the principal, lists the key in its column of keys, and at the time it is not
  -- revoked, has begun and has not ended, by its own columns.
  abbrev pub IsGrantRow : (principal key at : String) → AuthorityRelationship → Type 0
  IsGrantRow principal key at r =
      (r.principal_id ≡ principal)
      × ((granted : List String) × (keys.decode r.granted_authorities ≡ ok granted)
          × Any (λ k. key ≡ k) granted)
      × ((t : ℕ) × (parse_rfc3339 host.fromisoformat at ≡ ok t)
          × Bounded host (λ revoked. t < revoked) r.revoked_at
          × Bounded host (λ from. from ≤ t) r.effective_from
          × Bounded host (λ until. t < until) r.effective_until)

  abbrev as_evidence : AuthorityRelationship → List String → AuthorityEvidence
  as_evidence r granted = record {
    relationship_id = r.id;
    relationship_type = r.relationship_type;
    principal_id = r.principal_id;
    target_id = r.target_id;
    granted_authorities = granted;
    effective_from = r.effective_from;
    effective_until = r.effective_until;
    revoked_at = r.revoked_at;
  }

  IsGrantRow-iff :
      (principal key at : String) (r : AuthorityRelationship)
      → Relates keys (Grounds host db keys key at) principal r ↔ IsGrantRow principal key at r
  unfolding evidence_of
  IsGrantRow-iff principal key at r = (
    λ (own, (ev, read, held)).
        let (granted, e, e') = >>=-eq-ok (keys.decode r.granted_authorities) _ read in
        let (lists, t, parsed, window) =
          subst (Grounds host db keys key at) (sym (of_ok e')) held in
        (own, (granted, e, lists), (t, parsed, window.0, window.1, window.2)),
    λ (own, (granted, e, lists), (t, parsed, revoked, begun, until)).
        (own, (as_evidence r granted, rw e refl, (lists, t, parsed, (revoked, begun, until)))),
  )
    where
      of_ok : {a b : AuthorityEvidence} → ok a ≡ ok b → a ≡ b
      of_ok h = cc

  module _ (s : Session db) (transition : Transition F) (key at : String) (facts : Facts F) where
    -- What the rows must show for the transition.
    abbrev pub RowsAuthorize : DecisionRequest F → Type 0
    RowsAuthorize req =
        IsUpToDate db s transition.expected_state_revision facts.work_request_id
        × IsActivePrincipal s transition.proposed_by_principal_id
        × Any (IsGrantRow transition.proposed_by_principal_id key at)
            (db.authority_relationships.scan s.authority_relationships)
        × IsNarrowing key facts.delegation
        × All (Meets host req) facts.constraints

    RowsAuthorize-iff :
        (req : DecisionRequest F)
        → IsNumbered (db.work_request_revisions.scan s.work_request_revisions)
        → IsAuthorized host db keys s transition key at facts req ↔ RowsAuthorize req
    RowsAuthorize-iff req once =
        let p = transition.proposed_by_principal_id in
        let rows = db.authority_relationships.scan s.authority_relationships in
        let revision =
          IsFresh-iff-IsUpToDate db s transition.expected_state_revision facts.work_request_id
            once in
        let active = IsActivePrincipal-iff s p in
        let to = Any-weaken host db keys _ _ rows (λ r. (IsGrantRow-iff p key at r).0) in
        let from = Any-weaken host db keys _ _ rows (λ r. (IsGrantRow-iff p key at r).1) in
        (
          λ (fresh, lives, held, narrow, met).
              (revision.0 fresh, active.0 lives, to held, narrow, met),
          λ (fresh, lives, held, narrow, met).
              (revision.1 fresh, active.1 lives, from held, narrow, met),
        )

    -- A request that was built from the store, and evaluated: the outcome is Denied unless the
    -- expected revision is that of the row with the highest number, where the Work Request is named
    -- and has rows; the person of the proposer's id is active, or the agent where there is no such
    -- person; a row of `authority_relationships` names the proposer, lists the key, and is in force
    -- by its three bounds; the delegation narrows and the constraints are met. Otherwise it is
    -- ApprovalRequired if a constraint asks for an approval, and Allowed if not. No Work Request has
    -- two revisions of one number.
    pub resolved_by_rows :
        {req : DecisionRequest F} {d : Decision}
        → IsNumbered (db.work_request_revisions.scan s.work_request_revisions)
        → build_decision_request db keys s transition key at facts ≡ ok req
        → evaluate host req ≡ ok d
        → ((d.outcome ≡ Outcome.denied) ↔ (¬ RowsAuthorize req))
          × ((d.outcome ≡ Outcome.approval_required)
              ↔ (RowsAuthorize req × Any IsApproval facts.constraints))
          × ((d.outcome ≡ Outcome.allowed)
              ↔ (RowsAuthorize req × (¬ Any IsApproval facts.constraints)))
    resolved_by_rows {req} once h e =
        along (RowsAuthorize-iff req once)
          (resolved_outcome host db keys s transition key at facts h e)
