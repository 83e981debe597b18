-- ===== src/Store/Growth.antt =====
-- What stays true of a session whatever rows are added to it: the store is append-only.
use connect_governance.Prelude.{
  String, ◌≡◌, ◌∙◌, refl, ap, subst, arith, Option, none, some, List, [], ◌∷◌, Option-cases, inl,
  inr, eq_refl, ◌==◌, sym, not,
}
use connect_governance.Schema.{DecisionRecord, GenesisRecord}
use connect_governance.Store.{Database, Session, Row, add, add_all, flush, put_back}
use connect_governance.Store.Laws.{
  insert_admitted, free-of_find, get-insert_old, get-insert_self, text_same, number_same,
}

-- What a view of the new session shows, if the row was added.
pub put_back_view :
    {S T B : Type 0} (f : T → S) (o : Option T) {t : S} (view : S → B) {b : B}
    → ((u : T) → o ≡ some u → view (f u) ≡ b)
    → put_back f o ≡ some t
    → view t ≡ b
put_back_view f none view h e = cc
put_back_view f (some u) {t} view h e = let e' : t ≡ f u = cc in ap view e' ∙ h u refl

module _ {F : Type 0} (db : Database F) where
  -- A Decision Record that is there is found unchanged after a row of any table is added.
  record_kept :
      (r : Row F) (k : String) (x : DecisionRecord) (s : Session db) {t : Session db}
      → add db r s ≡ some t
      → db.decision_records.get s.decision_records k ≡ some x
      → db.decision_records.get t.decision_records k ≡ some x
  unfolding add
  record_kept (Row.decision_record r) k x s {t} e h =
      put_back_view _ (db.decision_records.insert r s.decision_records)
        (λ (w : Session db). db.decision_records.get w.decision_records k)
        (λ u e'.
          get-insert_old db.decision_records text_same (λ rows r' a. a) r x s.decision_records k e'
            h)
        e
  record_kept _ k x s {t} e h =
      put_back_view _ _ (λ (w : Session db). db.decision_records.get w.decision_records k)
        (λ u e'. h) e

  -- So is the Genesis record.
  genesis_kept :
      (r : Row F) (x : GenesisRecord) (s : Session db) {t : Session db}
      → add db r s ≡ some t
      → db.genesis_record.get s.genesis_record 1 ≡ some x
      → db.genesis_record.get t.genesis_record 1 ≡ some x
  unfolding add
  genesis_kept (Row.genesis r) x s {t} e h =
      put_back_view _ (db.genesis_record.insert r s.genesis_record)
        (λ (w : Session db). db.genesis_record.get w.genesis_record 1)
        (λ u e'.
          get-insert_old db.genesis_record number_same (λ rows r' a. ground arith) r x
            s.genesis_record 1 e' h)
        e
  genesis_kept _ x s {t} e h =
      put_back_view _ _ (λ (w : Session db). db.genesis_record.get w.genesis_record 1) (λ u e'. h) e

  -- Rows added one by one, each successfully.
  pub data Adds : List (Row F) → Session db → Session db → Type 0 where
    nothing : {s : Session db} → Adds [] s s
    first :
        {r : Row F} {rows : List (Row F)} {s t u : Session db}
        → add db r s ≡ some t
        → Adds rows t u
        → Adds (r ∷ rows) s u

  pub add_all_of_Adds :
      {rows : List (Row F)} {s t : Session db} → Adds rows s t → add_all db rows s ≡ some t
  unfolding add_all
  add_all_of_Adds nothing = refl
  add_all_of_Adds (first e a) = rw (e, add_all) (add_all_of_Adds a)

  -- One row that was added.
  pub add_of_add_all :
      (r : Row F) (s : Session db) {t : Session db}
      → add_all db (r ∷ []) s ≡ some t
      → add db r s ≡ some t
  unfolding add_all
  add_of_add_all r s {t} h = elim (Option-cases (add db r s)) [
    | inl e ↦ cc (rw (e, add_all) at h)
    | inr (u, e) ↦ e ∙ (rw (e, add_all) at h)
  ]

  -- The first row was added, then the others.
  pub add_all-first :
      (r : Row F) (rows : List (Row F)) (s : Session db) {u : Session db}
      → add_all db (r ∷ rows) s ≡ some u
      → (t : Session db) × (add db r s ≡ some t) × (add_all db rows t ≡ some u)
  unfolding add_all
  add_all-first r rows s {u} h = elim (Option-cases (add db r s)) [
    | inl e ↦ cc (rw (e, add_all) at h)
    | inr (t, e) ↦ (t, e, rw (e, add_all) at h)
  ]

  -- A Decision Record that was added is found under its id.
  pub HasRecord_of_add :
      (r : DecisionRecord) (s : Session db) {t : Session db}
      → add_all db (Row.decision_record r ∷ []) s ≡ some t
      → db.decision_records.get t.decision_records r.id ≡ some r
  unfolding add
  HasRecord_of_add r s {t} h =
      put_back_view _ (db.decision_records.insert r s.decision_records)
        (λ (w : Session db). db.decision_records.get w.decision_records r.id)
        (λ u e.
          get-insert_self db.decision_records text_same (λ rows r' a. a) r s.decision_records
            (eq_refl r.id) e)
        (add_of_add_all (Row.decision_record r) s h)

  pub record_inserted :
      (r : DecisionRecord) (s : Session db) {t : Session db}
      → add_all db (Row.decision_record r ∷ []) s ≡ some t
      → db.decision_records.insert r s.decision_records ≡ some t.decision_records
  unfolding add
  record_inserted r s {t} h = sym (
      put_back_view _ (db.decision_records.insert r s.decision_records)
        (λ (w : Session db). some w.decision_records) (λ u e. sym e)
        (add_of_add_all (Row.decision_record r) s h))

  -- A Decision Record under an unused id is added.
  pub record_admitted :
      (r : DecisionRecord) (s : Session db)
      → db.decision_records.get s.decision_records r.id ≡ none
      → (t : Session db) × (add_all db (Row.decision_record r ∷ []) s ≡ some t)
  unfolding add
  record_admitted r s free =
      let unused =
        free-of_find ◌==◌ (λ (x : DecisionRecord). x.id)
          (db.decision_records.scan s.decision_records) r.id
          (sym (db.decision_records.get-scan s.decision_records r.id) ∙ free) in
      let (rows, inserted) =
        insert_admitted db.decision_records r s.decision_records (ap not unused) in
      let t : Session db = record s { decision_records = rows } in
      let added : add db (Row.decision_record r) s ≡ some t = rw (inserted, put_back) in
      (t, add_all_of_Adds (Adds.first added Adds.nothing))

  -- What every single row keeps, a flush keeps.
  module _ (P : Session db → Type 0)
      (keep : (r : Row F) (s t : Session db) → add db r s ≡ some t → P s → P t) where
    add_all_keeps :
        (rows : List (Row F)) (s : Session db) {t : Session db}
        → add_all db rows s ≡ some t
        → P s
        → P t
    unfolding add_all
    add_all_keeps [] s {t} e h = let e' : s ≡ t = cc in subst P e' h
    add_all_keeps (r ∷ rows) s e h = elim (Option-cases (add db r s)) [
      | inl e' ↦ cc (rw (e', add_all) at e)
      | inr (u, e') ↦ add_all_keeps rows u (rw (e', add_all) at e) (keep r s u e' h)
    ]

    pub flush_keeps : (rows : List (Row F)) (s : Session db) → P s → P (flush db rows s).1
    unfolding flush
    flush_keeps rows s h = elim (Option-cases (add_all db rows s)) [
      | inl e ↦ rw (e, flush) h
      | inr (t, e) ↦ rw (e, flush) (add_all_keeps rows s e h)
    ]

  pub Grown_of_add_all :
      (rows : List (Row F)) (s : Session db) {t : Session db}
      → add_all db rows s ≡ some t
      → (flush db rows s).1 ≡ t
  unfolding flush
  Grown_of_add_all rows s e = rw (flush, e)

  abbrev pub HasRecord : String → DecisionRecord → Session db → Type 0
  HasRecord k x s = db.decision_records.get s.decision_records k ≡ some x

  abbrev pub HasGenesis : GenesisRecord → Session db → Type 0
  HasGenesis x s = db.genesis_record.get s.genesis_record 1 ≡ some x

  pub flush-HasRecord :
      (k : String) (x : DecisionRecord) (rows : List (Row F)) (s : Session db)
      → HasRecord k x s
      → HasRecord k x (flush db rows s).1
  flush-HasRecord k x = flush_keeps (HasRecord k x) (λ r s t. record_kept r k x s)

  pub flush-HasGenesis :
      (x : GenesisRecord) (rows : List (Row F)) (s : Session db)
      → HasGenesis x s
      → HasGenesis x (flush db rows s).1
  flush-HasGenesis x = flush_keeps (HasGenesis x) (λ r s t. genesis_kept r x s)

  -- The sessions that flushes lead to, successful or not.
  pub data Grown (s : Session db) : Session db → Type 0 where
    same : Grown s s
    more : {t : Session db} (rows : List (Row F)) → Grown s t → Grown s (flush db rows t).1

  pub Grown-flush : (rows : List (Row F)) (s : Session db) → Grown s (flush db rows s).1
  Grown-flush rows s = more rows same

  pub Grown-trans : {s t u : Session db} → Grown s t → Grown t u → Grown s u
  Grown-trans g same = g
  Grown-trans g (more rows h) = more rows (Grown-trans g h)

  pub Grown-HasRecord :
      (k : String) (x : DecisionRecord) {s t : Session db}
      → Grown s t
      → HasRecord k x s
      → HasRecord k x t
  Grown-HasRecord k x same h = h
  Grown-HasRecord k x (more {t = t} rows g) h = flush-HasRecord k x rows t (Grown-HasRecord k x g h)

  pub Grown-HasGenesis :
      (x : GenesisRecord) {s t : Session db} → Grown s t → HasGenesis x s → HasGenesis x t
  Grown-HasGenesis x same h = h
  Grown-HasGenesis x (more {t = t} rows g) h = flush-HasGenesis x rows t (Grown-HasGenesis x g h)
