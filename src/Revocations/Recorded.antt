-- ===== src/Revocations/Recorded.antt =====
-- Every issuer's stored lists form one chain, whatever lists were put to the store.
use connect_governance.Prelude.{
  String, ◌≡◌, ◌≢◌, refl, sym, ap, ◌∙◌, Bool, true, false, not, Option, none, some, List, [], ◌∷◌,
  arith, filter, any, ◌==◌, eq_iff, eq_refl, Error, Result, ok, err, Bool-cases, Option-cases, inl,
  inr,
}
use connect_governance.Codec.{Codec}
use connect_governance.Schema.{RevocationListRecord}
use connect_governance.Store.{Database, Session, Row, add, add_all, put_back}
use connect_governance.Store.Flush.{written_added, written_refused}
use connect_governance.Store.Laws.{free-of_find, find-of_free, insert_admitted}
use connect_governance.Store.Growth.{put_back_view, add_of_add_all, Adds, add_all_of_Adds}
use connect_governance.Revocations.{
  list_id_of, same_id, lists_of, latest_revocation_list, list_row, record_revocation_list,
}
use connect_governance.Revocations.Types.{RevocationList}
use connect_governance.Revocations.Chain.{
  Chain, extended, only_head-Chain, filter-Merge_keep, filter-Merge_drop,
}

same_id_eq : (a b : Option String) → same_id a b ≡ true → a ≡ b
same_id_eq none none h = refl
same_id_eq (some a) (some b) h = ap some ((eq_iff a b).0 h)
same_id_eq none (some b) h = cc
same_id_eq (some a) none h = cc

same_id_refl : (a : Option String) → same_id a a ≡ true
same_id_refl none = refl
same_id_refl (some a) = eq_refl a

any-filter-false :
    {A : Type 0} (q p : A → Bool) (xs : List A) → any q xs ≡ false → any q (filter p xs) ≡ false
any-filter-false q p [] h = refl
any-filter-false q p (x ∷ xs) h = ground (arith, any-filter-false q p xs)

module _ {F : Type 0} (lists : Codec RevocationList) (db : Database F) where
  list_inserted :
      (r : RevocationListRecord) (s : Session db) {t : Session db}
      → add_all db (Row.revocation_list_record r ∷ []) s ≡ some t
      → db.revocation_list_records.insert r s.revocation_list_records
        ≡ some t.revocation_list_records
  unfolding add
  list_inserted r s {t} h = sym (
      put_back_view _ (db.revocation_list_records.insert r s.revocation_list_records)
        (λ (w : Session db). some w.revocation_list_records) (λ u e. sym e)
        (add_of_add_all db (Row.revocation_list_record r) s h))

  -- The stored lists of an issuer, in a chain with this head.
  abbrev pub IsChained : Session db → String → Option RevocationListRecord → Type 0
  IsChained s i head = Chain head (lists_of lists db i s)

  pub latest-Chained :
      (s : Session db) (i : String) (head : Option RevocationListRecord)
      → IsChained s i head
      → latest_revocation_list lists db s i ≡ ok head
  unfolding latest_revocation_list
  latest-Chained s i head c = only_head-Chain c

  module _ (l : RevocationList) (s : Session db) where
    abbrev pub recording : Result RevocationListRecord × Session db
    recording = record_revocation_list lists db l s

    abbrev list_rows : List (Row F)
    list_rows = Row.revocation_list_record (list_row lists db l) ∷ []

    -- A list that was added extends the chain of its issuer, and leaves the other chains.
    pub Chained-added :
        {t : Session db} {head : Option RevocationListRecord}
        → add_all db (Row.revocation_list_record (list_row lists db l) ∷ []) s ≡ some t
        → l.supersedes ≡ list_id_of head
        → IsChained s l.issuer_key_id head
        → IsChained t l.issuer_key_id (some (list_row lists db l))
    Chained-added {t} {head} e next c =
        let (admitted, merged) =
          db.revocation_list_records.insert-some (list_row lists db l) s.revocation_list_records
            (list_inserted (list_row lists db l) s e) in
        let own : RevocationListRecord → Bool = λ r. r.issuer_key_id == l.issuer_key_id in
        extended (list_row lists db l) c next
          (any-filter-false (λ x. x.list_id == l.list_id) own
            (db.revocation_list_records.scan s.revocation_list_records) (ground arith))
          (filter-Merge_keep own (list_row lists db l) (eq_refl l.issuer_key_id) merged)

    pub list_id_free :
        {t : Session db}
        → add_all db (Row.revocation_list_record (list_row lists db l) ∷ []) s ≡ some t
        → db.revocation_list_records.get s.revocation_list_records l.list_id ≡ none
    list_id_free e =
        db.revocation_list_records.get-scan s.revocation_list_records l.list_id
        ∙ find-of_free ◌==◌ (λ (x : RevocationListRecord). x.list_id)
            (db.revocation_list_records.scan s.revocation_list_records) (list_row lists db l)
            (db.revocation_list_records.insert-some (list_row lists db l) s.revocation_list_records
              (list_inserted (list_row lists db l) s e)).0

    pub lists_of_other :
        {t : Session db} (j : String)
        → add_all db (Row.revocation_list_record (list_row lists db l) ∷ []) s ≡ some t
        → (l.issuer_key_id == j) ≡ false
        → lists_of lists db j t ≡ lists_of lists db j s
    lists_of_other {t} j e other =
        let (admitted, merged) =
          db.revocation_list_records.insert-some (list_row lists db l) s.revocation_list_records
            (list_inserted (list_row lists db l) s e) in
        filter-Merge_drop (λ r. r.issuer_key_id == j) (list_row lists db l) other merged

    -- How recording a list ends, with the issuer's chain at this head.
    pub data Attempt (head : Option RevocationListRecord)
        : Result RevocationListRecord × Session db → Type 0 where
      added :
          {t : Session db}
          → l.supersedes ≡ list_id_of head
          → add_all db (Row.revocation_list_record (list_row lists db l) ∷ []) s ≡ some t
          → Attempt head (ok (list_row lists db l), t)
      out_of_line :
          l.supersedes ≢ list_id_of head → Attempt head (err Error.revocation_chain_refused, s)
      id_taken :
          l.supersedes ≡ list_id_of head
          → db.revocation_list_records.get s.revocation_list_records l.list_id ≢ none
          → Attempt head (err Error.integrity_error, s)

    list_refused :
        add_all db (Row.revocation_list_record (list_row lists db l) ∷ []) s ≡ none
        → db.revocation_list_records.get s.revocation_list_records l.list_id ≢ none
    unfolding add
    list_refused e free =
        let unused =
          free-of_find ◌==◌ (λ (x : RevocationListRecord). x.list_id)
            (db.revocation_list_records.scan s.revocation_list_records) l.list_id
            (sym (db.revocation_list_records.get-scan s.revocation_list_records l.list_id)
              ∙ free) in
        let (rows, inserted) =
          insert_admitted db.revocation_list_records (list_row lists db l) s.revocation_list_records
            (ap not unused) in
        let t : Session db = record s { revocation_list_records = rows } in
        let put : add db (Row.revocation_list_record (list_row lists db l)) s ≡ some t =
          rw (inserted, put_back) in
        let made : ◌≡◌ {A = Option (Session db)} none (some t) =
          sym e ∙ add_all_of_Adds db (Adds.first put Adds.nothing) in
        cc made

    pub attempts :
        (head : Option RevocationListRecord)
        → IsChained s l.issuer_key_id head
        → Attempt head recording
    unfolding record_revocation_list
    attempts head c =
        let latest = latest-Chained s l.issuer_key_id head c in
        elim (Bool-cases (same_id l.supersedes (list_id_of head))) [
          | inr e ↦
              rw (latest, e)
                (Attempt.out_of_line (λ x.
                  cc (same_id_refl (list_id_of head), e, ap (λ o. same_id o (list_id_of head)) x)))
          | inl e ↦
              let next = same_id_eq _ _ e in
              elim (Option-cases
                (add_all db (Row.revocation_list_record (list_row lists db l) ∷ []) s)) [
                  | inl n ↦
                      rw (latest, e, written_refused db list_rows (list_row lists db l) s n)
                        (Attempt.id_taken next (list_refused n))
                  | inr (t, m) ↦
                      rw (latest, e, written_added db list_rows (list_row lists db l) s m)
                        (Attempt.added next m)
                ]
        ]
