-- ===== src/Revocations/History.antt =====
-- The store over any history of recorded lists, and how recording a list ends in it.
use connect_governance.Prelude.{
  String, ◌≡◌, ◌≢◌, refl, sym, ap, ◌⊎◌, subst, false, Option, none, some, [], ◌==◌, eq_iff, filter,
  Error, Result, ok, err, Bool-cases, inl, inr,
}
use connect_governance.Codec.{Codec}
use connect_governance.Schema.{RevocationListRecord}
use connect_governance.Store.{Database, Session}
use connect_governance.Revocations.{
  list_id_of, only_head, chain_heads, lists_of, latest_revocation_list, list_row,
  record_revocation_list,
}
use connect_governance.Revocations.Types.{RevocationList}
use connect_governance.Revocations.Chain.{Chain, unstarted}
use connect_governance.Revocations.Recorded.{
  IsChained, latest-Chained, Chained-added, lists_of_other, list_id_free, Attempt, attempts,
}

module _ {F : Type 0} (lists : Codec RevocationList) (db : Database F) where
  -- The sessions that calls of `record_revocation_list` lead to from a store without lists, with
  -- other operations between them that leave the lists alone.
  pub data Stored : Session db → Type 0 where
    start :
        {s : Session db} → db.revocation_list_records.scan s.revocation_list_records ≡ [] → Stored s
    put :
        {s : Session db}
        → (l : RevocationList) → Stored s
        → Stored (record_revocation_list lists db l s).1
    others :
        {s t : Session db}
        → t.revocation_list_records ≡ s.revocation_list_records
        → Stored s
        → Stored t

  abbrev HasHead : Session db → String → Type 0
  HasHead s i = (head : Option RevocationListRecord) × IsChained lists db s i head

  after-Attempt :
      (l : RevocationList) (s : Session db) {head : Option RevocationListRecord}
      (q : Result RevocationListRecord × Session db)
      → IsChained lists db s l.issuer_key_id head
      → Attempt lists db l s head q
      → (i : String) → HasHead s i
      → HasHead q.1 i
  after-Attempt l s {head} q c (Attempt.added {t = t} next m) i own =
      elim (Bool-cases (l.issuer_key_id == i)) [
        | inl e ↦ (
          some (list_row lists db l),
          subst (λ j. IsChained lists db t j (some (list_row lists db l)))
              ((eq_iff l.issuer_key_id i).0 e) (Chained-added lists db l s m next c),
        )
        | inr e ↦ (
          own.0,
          subst (λ rows. Chain own.0 rows) (sym (lists_of_other lists db l s i m e)) own.1,
        )
      ]
  after-Attempt l s q c (Attempt.out_of_line other) i own = own
  after-Attempt l s q c (Attempt.id_taken next taken) i own = own

  chained : {s : Session db} → Stored s → (i : String) → HasHead s i
  chained (start {s} e) i =
      (none, subst (λ rows. Chain none (filter (λ r. r.issuer_key_id == i) rows)) (sym e) unstarted)
  chained (put {s} l h) i =
      let (head, c) = chained h l.issuer_key_id in
      after-Attempt l s _ c (attempts lists db l s head c) i (chained h i)
  chained (others {s} {t} e h) i =
      let (head, c) = chained h i in
      (
        head,
        subst
            (λ rows.
              Chain head
                (filter (λ r. r.issuer_key_id == i) (db.revocation_list_records.scan rows)))
            (sym e) c,
      )

  -- Whatever lists were put to the store, the stored lists of every issuer form one chain, in which
  -- each list names the one recorded before it, and `latest_revocation_list` returns the last of
  -- them, never raising.
  pub latest_revocation_list-Chain :
      {s : Session db} (issuer_key_id : String)
      → Stored s
      → (head : Option RevocationListRecord) × Chain head (lists_of lists db issuer_key_id s)
        × (latest_revocation_list lists db s issuer_key_id ≡ ok head)
  latest_revocation_list-Chain {s} i h =
      let (head, c) = chained h i in (head, c, latest-Chained lists db s i head c)

  -- Recorded as the new head, refused as out of line, or refused for its id.
  pub Ending :
      RevocationList
      → Session db
      → Option RevocationListRecord
      → Result RevocationListRecord × Session db
      → Type 0
  Ending l s head q =
      ((t : Session db) × (q ≡ (ok (list_row lists db l), t))
        × (l.supersedes ≡ list_id_of head)
        × (db.revocation_list_records.get s.revocation_list_records l.list_id ≡ none)
        × (latest_revocation_list lists db t l.issuer_key_id ≡ ok (some (list_row lists db l)))
        × ((j : String)
            → l.issuer_key_id ≢ j
            → latest_revocation_list lists db t j ≡ latest_revocation_list lists db s j))
      ⊎ ((q ≡ (err Error.revocation_chain_refused, s)) × (l.supersedes ≢ list_id_of head))
      ⊎ ((q ≡ (err Error.integrity_error, s))
          × (l.supersedes ≡ list_id_of head)
          × (db.revocation_list_records.get s.revocation_list_records l.list_id ≢ none))

  differs : (a b : String) → a ≢ b → (a == b) ≡ false
  differs a b h = elim (Bool-cases (a == b)) [ inl e ↦ absurd (h ((eq_iff a b).0 e)) | inr e ↦ e ]

  ending :
      (l : RevocationList) (s : Session db) {head : Option RevocationListRecord}
      (q : Result RevocationListRecord × Session db)
      → IsChained lists db s l.issuer_key_id head
      → Attempt lists db l s head q
      → Ending l s head q
  unfolding Ending latest_revocation_list
  ending l s {head} q c (Attempt.added {t = t} next m) = inl (
    t,
    refl,
    next,
    list_id_free lists db l s m,
    latest-Chained lists db t l.issuer_key_id (some (list_row lists db l))
        (Chained-added lists db l s m next c),
    λ j other.
        ap (λ rows. only_head (chain_heads rows))
          (lists_of_other lists db l s j m (differs l.issuer_key_id j other)),
  )
  ending l s q c (Attempt.out_of_line other) = inr (inl (refl, other))
  ending l s q c (Attempt.id_taken next taken) = inr (inr (refl, next, taken))

  -- Whatever lists were put to the store before, `record_revocation_list` records a list exactly if
  -- it names its issuer's head as superseded (nothing, if there is none) and its id is new; it is
  -- the head from then on, and the other issuers' heads stay. Another list is refused with
  -- RevocationChainRefused if it does not name the head, and with IntegrityError if its id is taken,
  -- and the session stays as it was.
  pub record_revocation_list_cases :
      {s : Session db} (l : RevocationList)
      → Stored s
      → (head : Option RevocationListRecord) × (latest_revocation_list lists db s l.issuer_key_id
          ≡ ok head)
        × Ending l s head (record_revocation_list lists db l s)
  record_revocation_list_cases {s} l h =
      let (head, c) = chained h l.issuer_key_id in
      (
        head,
        latest-Chained lists db s l.issuer_key_id head c,
        ending l s _ c (attempts lists db l s head c),
      )
