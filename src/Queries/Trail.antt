-- ===== src/Queries/Trail.antt =====
-- An issued grant is found from every identifier that it is linked by.
use connect_governance.Prelude.{
  String, ◌≡◌, sym, ◌∙◌, Bool, true, Option, none, some, List, [], ◌∷◌, filter, All, Any, ◌==◌,
  eq_iff, eq_refl, Bool-cases, ok, inl, inr,
}
use connect_governance.Kernel.Evidence.{Host}
use connect_governance.Codec.{Codec, Codecs}
use connect_governance.Schema.{ExecutionGrantRecord}
use connect_governance.Store.{Database, Session, find}
use connect_governance.Store.Growth.{Grown}
use connect_governance.Store.Grants.{HasGrantRecord-of_add, Grown-HasGrantRecord}
use connect_governance.Signing.Types.{GrantPayload, ExecutionGrant}
use connect_governance.Signing.Scheme.{Crypto}
use connect_governance.Grants.{GrantArguments, grant_row, issue_grant}
use connect_governance.Grants.Issued.{issue_grant-eq-ok}
use connect_governance.Queries.{
  column_is, grants_for_work_request, grants_by_decision_record, records_for_correlation,
}

-- The row is in the list.
abbrev pub IsIn : {A : Type 0} → A → List A → Type 0
IsIn r rows = Any (λ x. r ≡ x) rows

find-IsIn :
    {K R : Type 0} (same : K → K → Bool) (key : R → K) (rows : List R) (k : K) {r : R}
    → find same key rows k ≡ some r
    → IsIn r rows
find-IsIn same key [] k h = cc
find-IsIn same key (x ∷ rows) k {r} h = elim (Bool-cases (same (key x) k)) [
  | inl e ↦ let found : r ≡ x = cc (rw e at h) in inl found
  | inr e ↦ inr (find-IsIn same key rows k (rw e at h))
]

IsIn-filter :
    {A : Type 0} (p : A → Bool) (rows : List A) {r : A}
    → p r ≡ true
    → IsIn r rows
    → IsIn r (filter p rows)
IsIn-filter p [] h w = absurd w
IsIn-filter p (x ∷ rows) h (inl e) = let passes : p x ≡ true = rw (← e) h in rw passes (inl e)
IsIn-filter p (x ∷ rows) h (inr w) = elim (Bool-cases (p x)) [
  | inl e ↦ rw e (inr (IsIn-filter p rows h w))
  | inr e ↦ rw e (IsIn-filter p rows h w)
]

All-filter :
    {A : Type 0} (p : A → Bool) (P : A → Type 0) (rows : List A)
    → ((x : A) → p x ≡ true → P x)
    → All P (filter p rows)
All-filter p P [] h = tt
All-filter p P (x ∷ rows) h = elim (Bool-cases (p x)) [
  | inl e ↦ rw e (h x e, All-filter p P rows h)
  | inr e ↦ rw e (All-filter p P rows h)
]

column_is-some : (o : Option String) (v : String) → (column_is o v) ≡ true → o ≡ some v
column_is-some none v h = cc
column_is-some (some w) v h = let e : w ≡ v = (eq_iff w v).0 h in cc

module _ {F : Type 0} (db : Database F) (u : Session db) where
  -- Every grant that a query by an identifier returns names that identifier.
  pub Linked : (decision_record_id work_request_id correlation_id : String) → Type 0
  Linked decision_record_id work_request_id correlation_id =
      All (λ (r : ExecutionGrantRecord). r.decision_record_id ≡ decision_record_id)
        (grants_by_decision_record db u decision_record_id)
      × All (λ (r : ExecutionGrantRecord). r.work_request_id ≡ work_request_id)
          (grants_for_work_request db u work_request_id)
      × All (λ (r : ExecutionGrantRecord). r.correlation_id ≡ some correlation_id)
          (records_for_correlation db u correlation_id).1

  linked : (d w c : String) → Linked d w c
  unfolding Linked
  linked d w c = (
    All-filter (λ r. r.decision_record_id == d) _
        (db.execution_grant_records.scan u.execution_grant_records)
        (λ r e. (eq_iff r.decision_record_id d).0 e),
    All-filter (λ r. r.work_request_id == w) _
        (db.execution_grant_records.scan u.execution_grant_records)
        (λ r e. (eq_iff r.work_request_id w).0 e),
    All-filter (λ r. column_is r.correlation_id c) _
        (db.execution_grant_records.scan u.execution_grant_records)
        (λ r e. column_is-some r.correlation_id c e),
  )

module _ {F : Type 0} (host : Host F) (crypto : Crypto) (canonical : GrantPayload F → String)
    (codecs : Codecs F) (grants : Codec (ExecutionGrant F)) (db : Database F) where
  -- A grant with a correlation id that was issued is found, in every later session, by its Decision
  -- Record's id, by its Work Request's id and by its correlation id; and every grant that these
  -- queries return names the identifier that it was asked by.
  pub issued_grant_traversable :
      (a : GrantArguments F) (s : Session db) {g : ExecutionGrant F} {t u : Session db} (c : String)
      → issue_grant host crypto canonical codecs grants db a s ≡ (ok g, t)
      → Grown db t u
      → g.payload.correlation_id ≡ some c
      → IsIn
          (grant_row host crypto canonical codecs grants db a g)
          (grants_by_decision_record db u a.decision_record_id)
        × IsIn
            (grant_row host crypto canonical codecs grants db a g)
            (grants_for_work_request db u a.work_request_id)
        × IsIn
            (grant_row host crypto canonical codecs grants db a g)
            (records_for_correlation db u c).1
        × Linked db u a.decision_record_id a.work_request_id c
  issued_grant_traversable a s {g} {t} {u} c h grown correlated =
      let (i, added) = issue_grant-eq-ok host crypto canonical codecs grants db a s h in
      let row = grant_row host crypto canonical codecs grants db a g in
      let there =
        Grown-HasGrantRecord db a.grant_id row grown (HasGrantRecord-of_add db row s added) in
      let rows = db.execution_grant_records.scan u.execution_grant_records in
      let stored : IsIn row rows =
        find-IsIn ◌==◌ (λ (r : ExecutionGrantRecord). r.id) rows a.grant_id
          (sym (db.execution_grant_records.get-scan u.execution_grant_records a.grant_id)
            ∙ there) in
      (
        IsIn-filter (λ r. r.decision_record_id == a.decision_record_id) rows
            (eq_refl a.decision_record_id) stored,
        IsIn-filter (λ r. r.work_request_id == a.work_request_id) rows (eq_refl a.work_request_id)
            stored,
        IsIn-filter (λ r. column_is r.correlation_id c) rows (rw correlated (eq_refl c)) stored,
        linked db u a.decision_record_id a.work_request_id c,
      )
