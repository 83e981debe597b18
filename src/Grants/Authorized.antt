-- ===== src/Grants/Authorized.antt =====
-- An issued grant rests on the governed state that its Decision was evaluated against; it is
-- found in every later session and verifies.
use connect_governance.Prelude.{
  ℕ, String, ◌≡◌, refl, sym, ◌∙◌, ap, ◌≢◌, ◌↔◌, true, Option, some, ◌==◌, Any, Error, Result, ok,
  err, if◌then◌else◌,
}
use connect_governance.Kernel.Timestamp.{parse_rfc3339}
use connect_governance.Kernel.Types.{Outcome, outcome_value, Transition, DecisionRequest, Decision}
use connect_governance.Kernel.Evidence.{Host}
use connect_governance.Kernel.Evaluate.Demands.{IsApproval}
use connect_governance.Kernel.Evaluate.Total.{IsReadable}
use connect_governance.Codec.{Codec, Codecs}
use connect_governance.Schema.{DecisionRecord, ExecutionGrantRecord}
use connect_governance.Store.{Database, Session}
use connect_governance.Store.Growth.{Grown, HasRecord, HasRecord_of_add, Grown-HasRecord}
use connect_governance.Store.Grants.{HasGrantRecord, HasGrantRecord-of_add, Grown-HasGrantRecord}
use connect_governance.Resolution.{Facts, build_decision_request}
use connect_governance.Resolution.Outcome.{IsAuthorized, resolved_outcome}
use connect_governance.Decisions.{decision_row, evaluate_and_record}
use connect_governance.Decisions.Recording.{evaluate_and_record-eq-ok}
use connect_governance.Signing.{sign_grant, verify_grant}
use connect_governance.Signing.Types.{GrantPayload, ExecutionGrant, VerificationResult}
use connect_governance.Signing.Scheme.{Crypto}
use connect_governance.Signing.Verify.{IsWithin}
use connect_governance.Signing.Genuine.{verify_grant-sign_grant, sign_grant-payload}
use connect_governance.Grants.{
  GrantArguments, grant_payload, grant_row, sign_if_allowed, issue_grant, find_grant, load_grant,
}
use connect_governance.Grants.Issued.{IsIssued, issue_grant-eq-ok}

refused_unless :
    {A : Type 0} (r : Result A) (o : Outcome)
    → o ≢ Outcome.allowed
    → (if outcome_value o == "Allowed" then r else err Error.grant_issuance_refused)
      ≡ err Error.grant_issuance_refused
unfolding outcome_value
refused_unless r Outcome.allowed h = absurd (h refl)
refused_unless r Outcome.denied h = refl
refused_unless r Outcome.approval_required h = refl

module _ {F : Type 0} (host : Host F) (crypto : Crypto) (canonical : GrantPayload F → String)
    (codecs : Codecs F) (grants : Codec (ExecutionGrant F)) (db : Database F) where
  -- The record that an issuance reads is the one that was recorded, if that is there.
  same_decision :
      (a : GrantArguments F) (s : Session db) {g : ExecutionGrant F} {d : Decision}
      {row : DecisionRecord}
      → codecs.decisions.Holds d
      → row.decision_json ≡ codecs.decisions.encode d
      → HasRecord db a.decision_record_id row s
      → (i : IsIssued host crypto canonical codecs grants db a s g) → i.decision ≡ d
  same_decision a s {d = d} {row = row} holds written there i =
      let rows : i.row ≡ row = cc (i.here, there) in
      cc (i.decoded, codecs.decisions.decode-encode d holds, written, rows)

  sign_if_allowed_other :
      (a : GrantArguments F) (d : Decision)
      → d.outcome ≢ Outcome.allowed
      → sign_if_allowed host crypto canonical codecs grants db a d
        ≡ err Error.grant_issuance_refused
  unfolding sign_if_allowed outcome_value
  sign_if_allowed_other a d other =
      refused_unless (sign_grant host crypto canonical (grant_payload a d) a.private_key_pem)
        d.outcome other

  -- A Decision was evaluated against the governed state and recorded, and a text can hold it. If,
  -- in any later session, `issue_grant` returns a grant from its record, then the governed state
  -- authorized the transition and no approval was asked for, the Decision was Allowed, and the
  -- grant carries the arguments and the policy and Kernel versions of that Decision.
  pub issued_grant-IsAuthorized :
      (transition : Transition F) (key record_id at : String) (work_request_id : Option String)
      (facts : Facts F) (s : Session db) {req : DecisionRequest F} {d : Decision}
      {row : DecisionRecord} {t u v : Session db} (a : GrantArguments F) {g : ExecutionGrant F}
      → build_decision_request db codecs.keys s transition key at facts ≡ ok req
      → evaluate_and_record host codecs db record_id req at work_request_id s ≡ (ok (d, row), t)
      → codecs.decisions.Holds d
      → Grown db t u
      → a.decision_record_id ≡ record_id
      → issue_grant host crypto canonical codecs grants db a u ≡ (ok g, v)
      → IsAuthorized host db codecs.keys s transition key at facts req
        × (¬ Any IsApproval facts.constraints)
        × (d.outcome ≡ Outcome.allowed)
        × (g.payload ≡ grant_payload a d)
  unfolding decision_row
  issued_grant-IsAuthorized transition key record_id at wr facts s {req} {d} {row} {t} {u} {v} a {g}
        built recorded holds grown named h =
      let (evaluated, row_is, added) =
        evaluate_and_record-eq-ok host codecs db record_id req at wr s recorded in
      let made = decision_row host codecs db record_id req d at wr in
      let there = Grown-HasRecord db record_id made grown (HasRecord_of_add db made s added) in
      let there' : HasRecord db a.decision_record_id made u = rw named there in
      let (i, written) = issue_grant-eq-ok host crypto canonical codecs grants db a u h in
      let same_d = same_decision a u holds refl there' i in
      let allowed = ap (λ (x : Decision). x.outcome) (sym same_d) ∙ i.is_allowed in
      let (authorized, no_approval) =
        (resolved_outcome host db codecs.keys s transition key at facts built evaluated).2.0
          allowed in
      (
        authorized,
        no_approval,
        allowed,
        sign_grant-payload crypto host canonical (grant_payload a i.decision) a.private_key_pem
              i.signed
            ∙ ap (λ x. grant_payload a x) same_d,
      )

  found_loaded :
      (k : String) (row : ExecutionGrantRecord) (u : Session db) {g : ExecutionGrant F}
      → HasGrantRecord db k row u
      → grants.decode row.grant_json ≡ ok g
      → load_grant host crypto canonical codecs grants db u k ≡ ok g
  unfolding load_grant find_grant
  found_loaded k row u h e = rw (load_grant, find_grant, h) e

  -- A grant that was issued, and that a text can hold, is found under its id in every later session:
  -- the row names the Decision Record, the Work Request and the issuer of the arguments,
  -- `load_grant` returns the grant, and at every timestamp it verifies under the public key of the
  -- signing key, as valid exactly within its window, if the bounds are timestamps.
  pub issued_grant_verifies :
      (a : GrantArguments F) (s : Session db) {g : ExecutionGrant F} {t u : Session db}
      (at : String) {now : ℕ}
      → issue_grant host crypto canonical codecs grants db a s ≡ (ok g, t)
      → grants.Holds g
      → Grown db t u
      → parse_rfc3339 host.fromisoformat at ≡ ok now
      → IsReadable host a.not_before
      → IsReadable host a.not_after
      → HasGrantRecord db a.grant_id (grant_row host crypto canonical codecs grants db a g) u
        × (load_grant host crypto canonical codecs grants db u a.grant_id ≡ ok g)
        × ((key : crypto.PrivateKey) × (crypto.load_private a.private_key_pem ≡ ok key)
            × (r : VerificationResult) × (verify_grant host crypto canonical g
                  (crypto.public_pem (crypto.public_key key))
                  at
                  (some a.issuer_key_id)
                ≡ ok r)
            × (r.signature_valid ≡ true)
            × ((r.valid ≡ true) ↔ IsWithin host crypto canonical now g.payload))
  issued_grant_verifies a s {g} {t} {u} at h holds grown parsed before after =
      let (i, added) = issue_grant-eq-ok host crypto canonical codecs grants db a s h in
      let row = grant_row host crypto canonical codecs grants db a g in
      let there =
        Grown-HasGrantRecord db a.grant_id row grown (HasGrantRecord-of_add db row s added) in
      let payload = grant_payload a i.decision in
      let same = sign_grant-payload crypto host canonical payload a.private_key_pem i.signed in
      let (key, loaded, r, returned, signed, within) =
        verify_grant-sign_grant crypto host canonical payload a.private_key_pem at i.signed parsed
          before after in
      (
        there,
        found_loaded a.grant_id row u there (grants.decode-encode g holds),
        (key, loaded, r, returned, signed, rw same within),
      )
