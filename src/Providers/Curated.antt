-- ===== src/Providers/Curated.antt =====
-- How a governed act of the marketplace runs, and what its Allowed Decision rests on.
use connect_governance.Prelude.{
  String, ◌≡◌, refl, ◌∙◌, ap, true, Option, none, some, List, ◌==◌, if◌then◌else◌, Error, Result,
  ok, err, Option-cases, inl, inr,
}
use connect_governance.Kernel.Types.{Outcome, outcome_value, Transition, DecisionRequest, Decision}
use connect_governance.Kernel.Evidence.{Host}
use connect_governance.Codec.{Codecs}
use connect_governance.Schema.{DecisionRecord}
use connect_governance.Store.{
  Database, Session, Row, Exec, pure, raise, flush, add_all, continue, ◌>>=◌, ◌>>◌,
}
use connect_governance.Resolution.{principal_is_active, build_decision_request}
use connect_governance.Resolution.Grounds.{IsGranted}
use connect_governance.Resolution.Outcome.{resolved_outcome}
use connect_governance.Decisions.{evaluate_and_record}
use connect_governance.Decisions.Recording.{evaluate_and_record-eq-ok}
use connect_governance.Providers.{only_correlation}

module _ {F : Type 0} (host : Host F) (codecs : Codecs F) (db : Database F) where
  -- The rows are written if the Decision is Allowed, and `v` is returned then.
  pub if_allowed-eq-ok :
      {A : Type 0} (rows : List (Row F)) (v : A) (x : Error) (o : Outcome) (t : Session db) {a : A}
      {u : Session db}
      → (if outcome_value o == "Allowed" then (flush db rows >> pure v) else raise x) t ≡ (ok a, u)
      → (o ≡ Outcome.allowed) × (a ≡ v) × (add_all db rows t ≡ some u)
  unfolding outcome_value flush
  if_allowed-eq-ok rows v x Outcome.denied t h = cc
  if_allowed-eq-ok rows v x Outcome.approval_required t h = cc
  if_allowed-eq-ok {A = A} rows v x Outcome.allowed t {a} {u} h =
      elim (Option-cases (add_all db rows t)) [
        | inl e ↦ cc (rw (e, flush) at h)
        | inr (w, e) ↦
            let h' : ◌≡◌ {A = Result A × Session db} (ok v, w) (ok a, u) = rw (e, flush) at h in
            let there : w ≡ u = ap (λ p. p.1) h' in (refl, cc h', e ∙ ap some there)
      ]

  module _ (transition : Transition F) (key record_id recorded_at : String)
      (correlation_id : Option String) (s : Session db) where
    abbrev put_to_kernel : Result (DecisionRequest F)
    put_to_kernel =
        build_decision_request db codecs.keys s transition key recorded_at
          (only_correlation correlation_id)

    abbrev recorded_decision : DecisionRequest F → Result (Decision × DecisionRecord) × Session db
    recorded_decision request =
        evaluate_and_record host codecs db record_id request recorded_at none s

    -- The Decision that a governed act of these arguments goes by was Allowed, and so rests on an
    -- active principal with a grant in force.
    pub grounds :
        {request : DecisionRequest F} {d : Decision} {row : DecisionRecord} {t : Session db}
        → put_to_kernel ≡ ok request
        → recorded_decision request ≡ (ok (d, row), t)
        → d.outcome ≡ Outcome.allowed
        → (principal_is_active db s transition.proposed_by_principal_id ≡ true)
          × IsGranted host db codecs.keys s transition.proposed_by_principal_id key recorded_at
    grounds {request = request} a e o =
        let (evaluated, row_is, added) =
          evaluate_and_record-eq-ok host codecs db record_id request recorded_at none s e in
        let (denied, asks, allowed) =
          resolved_outcome host db codecs.keys s transition key recorded_at
            (only_correlation correlation_id) a evaluated in
        let ((fresh, active, granted, narrow, met), no_approval) = allowed.0 o in (active, granted)

    -- A governed act that returned: its Decision was recorded, and the rest ran from there.
    pub act-eq-ok :
        {A : Type 0} (next : Decision → Exec db A) (r : Result (DecisionRequest F)) {a : A}
        {u : Session db}
        → put_to_kernel ≡ r
        → continue r
            (λ request.
              evaluate_and_record host codecs db record_id request recorded_at none >>= λ p.
              next p.0)
            s
          ≡ (ok a, u)
        → (request : DecisionRequest F) × (d : Decision) × (row : DecisionRecord) × (t : Session db)
          × (put_to_kernel ≡ ok request)
          × (recorded_decision request ≡ (ok (d, row), t))
          × (next d t ≡ (ok a, u))
    act-eq-ok next (err x) b h = cc
    act-eq-ok next (ok request) {a} {u} b h = after (recorded_decision request) refl h
      where
        after :
            (q : Result (Decision × DecisionRecord) × Session db)
            → recorded_decision request ≡ q
            → continue q.0 (λ p. next p.0) q.1 ≡ (ok a, u)
            → (request : DecisionRequest F) × (d : Decision) × (row : DecisionRecord) × (t : Session
                db)
              × (put_to_kernel ≡ ok request)
              × (recorded_decision request ≡ (ok (d, row), t))
              × (next d t ≡ (ok a, u))
        after (ok (d, row), t) e g = (request, d, row, t, b, e, g)
        after (err x, t) e g = cc
