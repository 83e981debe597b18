-- ===== src/Genesis/Once.antt =====
-- Genesis runs where its tables are empty, and at most once.
use connect_governance.Prelude.{
  String, ◌≡◌, refl, sym, ◌=ℕ◌, ◌∙◌, true, false, none, some, List, [], arith, is_nil-eq,
  Bool-cases, Option-cases, inl, inr, Error, ok, err,
}
use connect_governance.Codec.{Codec}
use connect_governance.Schema.{GenesisRecord}
use connect_governance.Store.{Database, Session, Row, add, add_all, flush, put_back}
use connect_governance.Store.Laws.{insert_admitted, get-insert_self, number_same, free-of_find}
use connect_governance.Store.Growth.{Adds, add_all_of_Adds, Grown, Grown-HasGenesis}
use connect_governance.Genesis.{
  GenesisRequest, genesis_completed, state_is_empty, founding_grant, trust_root, first_organization,
  first_workspace, founding_person, initial_agent, genesis_rows, genesis_result,
  initialize_deployment,
}

module _ {F : Type 0} (db : Database F) where
  -- No organization, workspace, person, agent or authority relationship, and no Genesis record. The
  -- other tables are not looked at, as `_state_is_empty` does not.
  pub record IsUnfounded (s : Session db) : Type 0 where
    pub organizations : db.organizations.scan s.organizations ≡ []
    pub workspaces : db.workspaces.scan s.workspaces ≡ []
    pub persons : db.persons.scan s.persons ≡ []
    pub agents : db.agents.scan s.agents ≡ []
    pub authorities : db.authority_relationships.scan s.authority_relationships ≡ []
    pub genesis : db.genesis_record.get s.genesis_record 1 ≡ none

  state_is_empty_iff : (s : Session db) → state_is_empty db s ≡ true → IsUnfounded s
  unfolding state_is_empty genesis_completed
  state_is_empty_iff s h = record {
    organizations = is_nil-eq _ (ground arith);
    workspaces = is_nil-eq _ (ground arith);
    persons = is_nil-eq _ (ground arith);
    agents = is_nil-eq _ (ground arith);
    authorities = is_nil-eq _ (ground arith);
    genesis = ground arith;
  }

  IsUnfounded-state_is_empty : (s : Session db) → IsUnfounded s → state_is_empty db s ≡ true
  unfolding state_is_empty genesis_completed
  IsUnfounded-state_is_empty s h =
      rw (h.organizations, h.workspaces, h.persons, h.agents, h.authorities, h.genesis)

  module _ (keys : Codec (List String)) (request : GenesisRequest) where
    -- The session after the six rows, each inserted in its table.
    pub record Rooted (s t : Session db) : Type 0 where
      pub added : add_all db (genesis_rows keys request) s ≡ some t
      pub persons : db.persons.insert (founding_person request) s.persons ≡ some t.persons
      pub authorities :
          db.authority_relationships.insert (founding_grant keys request) s.authority_relationships
          ≡ some t.authority_relationships
      pub genesis :
          db.genesis_record.insert (trust_root request) s.genesis_record ≡ some t.genesis_record

    pub Rooted-of_IsUnfounded : (s : Session db) → IsUnfounded s → (t : Session db) × Rooted s t
    unfolding add
    Rooted-of_IsUnfounded s h =
        let (o, eo) =
          insert_admitted db.organizations (first_organization request) s.organizations
            (rw h.organizations) in
        let (w, ew) =
          insert_admitted db.workspaces (first_workspace request) s.workspaces (rw h.workspaces) in
        let (p, ep) =
          insert_admitted db.persons (founding_person request) s.persons (rw h.persons) in
        let (a, ea) = insert_admitted db.agents (initial_agent request) s.agents (rw h.agents) in
        let (r, er) =
          insert_admitted db.authority_relationships (founding_grant keys request)
            s.authority_relationships (rw h.authorities) in
        let free =
          free-of_find ◌=ℕ◌ (λ (x : GenesisRecord). x.singleton)
            (db.genesis_record.scan s.genesis_record) 1
            (sym (db.genesis_record.get-scan s.genesis_record 1) ∙ h.genesis) in
        let (g, eg) =
          insert_admitted db.genesis_record (trust_root request) s.genesis_record (rw free) in
        let s₁ : Session db = record s { organizations = o } in
        let s₂ : Session db = record s₁ { workspaces = w } in
        let s₃ : Session db = record s₂ { persons = p } in
        let s₄ : Session db = record s₃ { agents = a } in
        let s₅ : Session db = record s₄ { authority_relationships = r } in
        let s₆ : Session db = record s₅ { genesis_record = g } in
        let e₁ : add db (Row.organization (first_organization request)) s ≡ some s₁ =
          rw (eo, put_back) in
        let e₂ : add db (Row.workspace (first_workspace request)) s₁ ≡ some s₂ =
          rw (ew, put_back) in
        let e₃ : add db (Row.person (founding_person request)) s₂ ≡ some s₃ = rw (ep, put_back) in
        let e₄ : add db (Row.agent (initial_agent request)) s₃ ≡ some s₄ = rw (ea, put_back) in
        let e₅ : add db (Row.authority_relationship (founding_grant keys request)) s₄ ≡ some s₅ =
          rw (er, put_back) in
        let e₆ : add db (Row.genesis (trust_root request)) s₅ ≡ some s₆ = rw (eg, put_back) in
        (
          s₆,
          record {
            added = add_all_of_Adds db (
                Adds.first e₁ (
                  Adds.first e₂
                    (Adds.first e₃ (Adds.first e₄ (Adds.first e₅ (Adds.first e₆ Adds.nothing))))));
            persons = ep;
            authorities = er;
            genesis = eg;
          },
        )

    completed_of_Rooted : (s t : Session db) → Rooted s t → genesis_completed db t ≡ true
    unfolding genesis_completed
    completed_of_Rooted s t h = rw (
        get-insert_self db.genesis_record number_same (λ rows r a. ground arith)
          (trust_root request) s.genesis_record refl h.genesis)

    not_completed : (s : Session db) → IsUnfounded s → genesis_completed db s ≡ false
    unfolding genesis_completed
    not_completed s h = rw h.genesis

    -- If the tables of organizations, workspaces, persons, agents and authority relationships are
    -- empty and there is no Genesis record, Genesis succeeds, whatever the other tables hold, with the
    -- ids of its request, and leaves the six rows and the record that disables it. If one of the five
    -- tables has a row or there is a Genesis record, it is refused and the session is untouched.
    pub initialize_deployment_cases :
        (s : Session db)
        → (IsUnfounded s
            → (t : Session db) × (initialize_deployment db keys request s
                ≡ (ok (genesis_result request), t))
              × Rooted s t
              × (genesis_completed db t ≡ true))
          × ((¬ IsUnfounded s)
              → initialize_deployment db keys request s ≡ (err Error.genesis_refused, s))
    unfolding initialize_deployment flush
    initialize_deployment_cases s = (on_empty, on_other)
      where
        on_empty :
            IsUnfounded s
            → (t : Session db) × (initialize_deployment db keys request s
                ≡ (ok (genesis_result request), t))
              × Rooted s t
              × (genesis_completed db t ≡ true)
        on_empty h =
            let (t, rooted) = Rooted-of_IsUnfounded s h in
            (
              t,
              rw (not_completed s h, IsUnfounded-state_is_empty s h, flush, rooted.added),
              rooted,
              completed_of_Rooted s t rooted,
            )

        on_other :
            (¬ IsUnfounded s)
            → initialize_deployment db keys request s ≡ (err Error.genesis_refused, s)
        on_other h = elim (Bool-cases (state_is_empty db s)) [
          | inl e ↦ absurd (h (state_is_empty_iff s e))
          | inr e ↦ ground arith
        ]

  -- Once Genesis has completed it stays so: after any further writes, every attempt is refused and
  -- changes nothing.
  pub initialize_deployment_once :
      (keys : Codec (List String)) (request : GenesisRequest) {s t : Session db}
      → genesis_completed db s ≡ true
      → Grown db s t
      → (genesis_completed db t ≡ true)
        × (initialize_deployment db keys request t ≡ (err Error.genesis_refused, t))
  unfolding genesis_completed initialize_deployment
  initialize_deployment_once keys request {s} {t} done g =
      elim (Option-cases (db.genesis_record.get s.genesis_record 1)) [
        | inl e ↦ cc (rw e at done)
        | inr (x, e) ↦ let kept = Grown-HasGenesis db x g e in (rw kept, rw kept)
      ]
