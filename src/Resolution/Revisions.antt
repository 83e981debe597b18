-- ===== src/Resolution/Revisions.antt =====
-- src/connect_governance/resolution.py: the current revision of a Work Request among the rows.
use connect_governance.Prelude.{
  ◌≤◌, String, ◌≡◌, refl, sym, ap, ◌∙◌, subst, ◌↔◌, ◌⊎◌, inl, inr, Option, none, some, List, [],
  ◌∷◌, ◌==◌, eq_iff, filter, Any, All, ltb, arith, Bool-cases,
}
use connect_governance.Kernel.Evaluate.Demands.{IsFresh}
use connect_governance.Schema.{WorkRequestRevision}
use connect_governance.Store.{Database, Session}
use connect_governance.Resolution.{latest_of, token_of, current_state_revision, revision_of}

module _ {F : Type 0} where
  abbrev pub IsRow : WorkRequestRevision F → List (WorkRequestRevision F) → Type 0
  IsRow r rows = Any (λ q. q ≡ r) rows

  -- A row of the Work Request, and none of its rows has a higher number.
  abbrev pub IsLatest : String → List (WorkRequestRevision F) → WorkRequestRevision F → Type 0
  IsLatest id rows r =
      IsRow r rows
      × (r.work_request_id ≡ id)
      × All (λ q. q.work_request_id ≡ id → q.revision_number ≤ r.revision_number) rows

  -- No Work Request has two rows of one number, as `uq_wrr_number` demands.
  abbrev pub IsNumbered : List (WorkRequestRevision F) → Type 0
  IsNumbered rows =
      (q r : WorkRequestRevision F)
      → IsRow q rows
      → IsRow r rows
      → q.work_request_id ≡ r.work_request_id
      → q.revision_number ≡ r.revision_number
      → q ≡ r

  All-weaken :
      {P Q : WorkRequestRevision F → Type 0} (xs : List (WorkRequestRevision F))
      → ((x : WorkRequestRevision F) → P x → Q x)
      → All P xs
      → All Q xs
  All-weaken [] f a = a
  All-weaken (x ∷ xs) f (p, a) = (f x p, All-weaken xs f a)

  All-row :
      (P : WorkRequestRevision F → Type 0) (xs : List (WorkRequestRevision F))
      (r : WorkRequestRevision F)
      → All P xs
      → IsRow r xs
      → P r
  All-row P [] r a w = absurd w
  All-row P (x ∷ xs) r (p, a) (inl e) = subst P e p
  All-row P (x ∷ xs) r (p, a) (inr w) = All-row P xs r a w

  latest_of-some :
      (b : WorkRequestRevision F) (xs : List (WorkRequestRevision F))
      → (r : WorkRequestRevision F) × (latest_of (some b) xs ≡ some r)
        × ((b ≡ r) ⊎ IsRow r xs)
        × (b.revision_number ≤ r.revision_number)
        × All (λ q. q.revision_number ≤ r.revision_number) xs
  unfolding latest_of
  latest_of-some b [] = (b, refl, inl refl, omega arith, tt)
  latest_of-some b (x ∷ xs) = elim (Bool-cases (ltb b.revision_number x.revision_number)) [
    | inl e ↦
        let (r, is, from, above, all_below) = latest_of-some x xs in
        (r, rw e is, inr from, ground arith, (above, all_below))
    | inr e ↦
        let (r, is, from, above, all_below) = latest_of-some b xs in
        (
          r,
          rw e is,
          elim from [ inl same ↦ inl same | inr w ↦ inr (inr w) ],
          above,
          (ground arith, all_below),
        )
  ]

  -- A row that a filter keeps is a row that passes the test.
  filter-IsRow :
      (id : String) (xs : List (WorkRequestRevision F)) (r : WorkRequestRevision F)
      → IsRow r (filter (λ q. q.work_request_id == id) xs)
      → IsRow r xs × (r.work_request_id ≡ id)
  filter-IsRow id [] r w = absurd w
  filter-IsRow id (x ∷ xs) r w = elim (Bool-cases (x.work_request_id == id)) [
    | inl e ↦ elim (rw e at w) [
      | inl same ↦
          (inl same, ap (λ q. q.work_request_id) (sym same) ∙ (eq_iff x.work_request_id id).0 e)
      | inr v ↦ let (there, named) = filter-IsRow id xs r v in (inr there, named)
    ]
    | inr e ↦ let (there, named) = filter-IsRow id xs r (rw e at w) in (inr there, named)
  ]

  filter-All :
      (P : WorkRequestRevision F → Type 0) (id : String) (xs : List (WorkRequestRevision F))
      → All P (filter (λ q. q.work_request_id == id) xs)
      → All (λ q. q.work_request_id ≡ id → P q) xs
  filter-All P id [] a = a
  filter-All P id (x ∷ xs) a = elim (Bool-cases (x.work_request_id == id)) [
    | inl e ↦ let (p, rest) = rw e at a in (λ named. p, filter-All P id xs rest)
    | inr e ↦ (λ named. cc ((eq_iff x.work_request_id id).1 named), filter-All P id xs (rw e at a))
  ]

  latest_of-none :
      (xs : List (WorkRequestRevision F))
      → ((xs ≡ []) × (latest_of none xs ≡ none))
        ⊎ ((r : WorkRequestRevision F) × (latest_of none xs ≡ some r)
            × IsRow r xs
            × All (λ q. q.revision_number ≤ r.revision_number) xs)
  unfolding latest_of
  latest_of-none [] = inl (refl, refl)
  latest_of-none (x ∷ xs) =
      let (r, is, from, above, all_below) = latest_of-some x xs in
      inr (r, is, from, (above, all_below))

module _ {F : Type 0} (db : Database F) (s : Session db) where
  abbrev revisions : List (WorkRequestRevision F)
  revisions = db.work_request_revisions.scan s.work_request_revisions

  -- The expected revision, where one is given, is that of the Work Request's latest row, unless no
  -- Work Request is named or it has no row.
  abbrev pub IsUpToDate : Option String → Option String → Type 0
  IsUpToDate (some expected) (some id) =
      ((r : WorkRequestRevision F) × IsLatest id revisions r × (expected ≡ r.state_revision))
      ⊎ All (λ q. ¬ (q.work_request_id ≡ id)) revisions
  IsUpToDate _ _ = Unit

  -- What is read is the latest row, or nothing if there is none.
  current_row :
      (id : String)
      → (All (λ q. ¬ (q.work_request_id ≡ id)) revisions × (current_state_revision db s id ≡ none))
        ⊎ ((r : WorkRequestRevision F) × IsLatest id revisions r
            × (current_state_revision db s id ≡ some r.state_revision))
  unfolding current_state_revision
  current_row id = elim (latest_of-none (filter (λ q. q.work_request_id == id) revisions)) [
    | inl (nothing, is) ↦ inl (filter-All (λ q. ⊥) id revisions (rw nothing tt), ap token_of is)
    | inr (r, is, there, above) ↦
        let (row, named) = filter-IsRow id revisions r there in
        inr (
          r,
          (row, named, filter-All (λ q. q.revision_number ≤ r.revision_number) id revisions above),
          ap token_of is,
        )
  ]

  latest_unique :
      (id : String) (q r : WorkRequestRevision F)
      → IsNumbered revisions
      → IsLatest id revisions q
      → IsLatest id revisions r
      → q ≡ r
  latest_unique id q r once (row_q, named_q, above_q) (row_r, named_r, above_r) =
      let up : q.revision_number ≤ r.revision_number =
        All-row (λ x. x.work_request_id ≡ id → x.revision_number ≤ r.revision_number) revisions q
          above_r row_q named_q in
      let down : r.revision_number ≤ q.revision_number =
        All-row (λ x. x.work_request_id ≡ id → x.revision_number ≤ q.revision_number) revisions r
          above_q row_r named_r in
      once q r row_q row_r (named_q ∙ sym named_r) (omega arith)

  IsFresh-iff :
      (expected id : String)
      → IsNumbered revisions
      → IsFresh (some expected) (current_state_revision db s id)
        ↔ IsUpToDate (some expected) (some id)
  IsFresh-iff expected id once = elim (current_row id) [
    | inl (nothing, is) ↦ rw is (λ h. inr nothing, λ h. tt)
    | inr (r, latest, is) ↦ rw is (
      λ h. inl (r, latest, h),
      λ h. elim h [
        | inl (q, latest_q, e) ↦
            e ∙ ap (λ x. x.state_revision) (latest_unique id q r once latest_q latest)
        | inr nothing ↦
            absurd (All-row (λ q. ¬ (q.work_request_id ≡ id)) revisions r nothing latest.0 latest.1)
      ],
    )
  ]

  pub IsFresh-iff-IsUpToDate :
      (expected wr : Option String)
      → IsNumbered revisions
      → IsFresh expected (revision_of db s wr) ↔ IsUpToDate expected wr
  IsFresh-iff-IsUpToDate (some e) (some id) once = IsFresh-iff e id once
  IsFresh-iff-IsUpToDate (some e) none once = (λ h. tt, λ h. tt)
  IsFresh-iff-IsUpToDate none wr once = (λ h. tt, λ h. tt)
