-- ===== src/Grants/Issued.antt =====
-- What an issuance that returned rests on, and what it leaves.
use connect_governance.Prelude.{
  String, ◌≡◌, refl, Option, none, some, [], ◌∷◌, ◌==◌, if◌then◌else◌, Error, Result, ok, err,
  >>=-eq-ok, Result-cases, Option-cases, inl, inr,
}
use connect_governance.Kernel.Types.{Outcome, outcome_value, Decision}
use connect_governance.Kernel.Evidence.{Host}
use connect_governance.Codec.{Codec, Codecs}
use connect_governance.Schema.{DecisionRecord, ExecutionGrantRecord}
use connect_governance.Store.{Database, Session, Row, add_all}
use connect_governance.Store.Growth.{HasRecord}
use connect_governance.Store.Flush.{written_added, written_refused}
use connect_governance.Signing.{sign_grant}
use connect_governance.Signing.Types.{GrantPayload, ExecutionGrant}
use connect_governance.Signing.Scheme.{Crypto}
use connect_governance.Grants.{
  GrantArguments, grant_payload, grant_row, find_decision, sign_if_allowed, prepare_grant,
  issue_grant,
}

module _ {F : Type 0} (host : Host F) (crypto : Crypto) (canonical : GrantPayload F → String)
    (codecs : Codecs F) (grants : Codec (ExecutionGrant F)) (db : Database F) where
  -- The Decision Record that the issuance read, and the grant that it signed.
  pub record IsIssued (a : GrantArguments F) (s : Session db) (grant : ExecutionGrant F)
      : Type 0 where
    pub row : DecisionRecord
    pub here : HasRecord db a.decision_record_id row s
    pub decision : Decision
    pub decoded : codecs.decisions.decode row.decision_json ≡ ok decision
    pub is_allowed : decision.outcome ≡ Outcome.allowed
    pub signed :
        sign_grant host crypto canonical (grant_payload a decision) a.private_key_pem ≡ ok grant

  signed_if_allowed :
      (a : GrantArguments F) (d : Decision) (o : Outcome) {g : ExecutionGrant F}
      (r : Result (ExecutionGrant F))
      → (if outcome_value o == "Allowed" then r else err Error.grant_issuance_refused) ≡ ok g
      → (o ≡ Outcome.allowed) × (r ≡ ok g)
  unfolding outcome_value
  signed_if_allowed a d Outcome.allowed r h = (refl, h)
  signed_if_allowed a d Outcome.denied r h = cc
  signed_if_allowed a d Outcome.approval_required r h = cc

  prepare_grant-eq-ok :
      (a : GrantArguments F) (s : Session db) {g : ExecutionGrant F}
      → prepare_grant host crypto canonical codecs grants db a s ≡ ok g
      → IsIssued a s g
  unfolding prepare_grant sign_if_allowed find_decision
  prepare_grant-eq-ok a s {g} h =
      let (row, e, h₁) =
        >>=-eq-ok (find_decision host crypto canonical codecs grants db s a.decision_record_id) _
          h in
      let (d, e', h₂) = >>=-eq-ok (codecs.decisions.decode row.decision_json) _ h₁ in
      let (allowed, signed) = signed_if_allowed a d d.outcome _ h₂ in
      record {
        row = row;
        here = found (db.decision_records.get s.decision_records a.decision_record_id) e;
        decision = d;
        decoded = e';
        is_allowed = allowed;
        signed = signed;
      }
    where
      found :
          (o : Option DecisionRecord) {row : DecisionRecord}
          → elim o [ none ↦ err Error.grant_issuance_refused | some row ↦ ok row ] ≡ ok row
          → o ≡ some row
      found none h = cc
      found (some row) h = cc

  module _ (a : GrantArguments F) (s : Session db) where
    abbrev issuing : Result (ExecutionGrant F) × Session db
    issuing = issue_grant host crypto canonical codecs grants db a s

    abbrev row_of : ExecutionGrant F → ExecutionGrantRecord
    row_of g = grant_row host crypto canonical codecs grants db a g

    -- The three ends of `issue_grant`.
    pub data Issuing : Result (ExecutionGrant F) × Session db → Type 0 where
      raised :
          {e : Error}
          → prepare_grant host crypto canonical codecs grants db a s ≡ err e
          → Issuing (err e, s)
      refused :
          {g : ExecutionGrant F}
          → prepare_grant host crypto canonical codecs grants db a s ≡ ok g
          → add_all db (Row.execution_grant_record (row_of g) ∷ []) s ≡ none
          → Issuing (err Error.integrity_error, s)
      issued :
          {g : ExecutionGrant F} {t : Session db}
          → prepare_grant host crypto canonical codecs grants db a s ≡ ok g
          → add_all db (Row.execution_grant_record (row_of g) ∷ []) s ≡ some t
          → Issuing (ok g, t)

    pub issue_grant_cases : Issuing issuing
    unfolding issue_grant
    issue_grant_cases =
        elim (Result-cases (prepare_grant host crypto canonical codecs grants db a s)) [
          | inr (x, e) ↦ rw e (Issuing.raised e)
          | inl (g, e) ↦
              elim (Option-cases (add_all db (Row.execution_grant_record (row_of g) ∷ []) s)) [
                | inl n ↦
                    rw (e, written_refused db (Row.execution_grant_record (row_of g) ∷ []) g s n)
                      (Issuing.refused e n)
                | inr (t, m) ↦
                    rw (e, written_added db (Row.execution_grant_record (row_of g) ∷ []) g s m)
                      (Issuing.issued e m)
              ]
        ]

    returned_only :
        {g : ExecutionGrant F} {t : Session db} (r : Result (ExecutionGrant F) × Session db)
        → Issuing r
        → r ≡ (ok g, t)
        → (prepare_grant host crypto canonical codecs grants db a s ≡ ok g)
          × (add_all db (Row.execution_grant_record (row_of g) ∷ []) s ≡ some t)
    returned_only _ (Issuing.raised e) h = cc
    returned_only _ (Issuing.refused e n) h = cc
    returned_only _ (Issuing.issued e m) h = (cc, cc)

    pub issue_grant-eq-ok :
        {g : ExecutionGrant F} {t : Session db}
        → issuing ≡ (ok g, t)
        → IsIssued a s g × (add_all db (Row.execution_grant_record (row_of g) ∷ []) s ≡ some t)
    issue_grant-eq-ok h =
        let (prepared, added) = returned_only issuing issue_grant_cases h in
        (prepare_grant-eq-ok a s prepared, added)
