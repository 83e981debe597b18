-- ===== src/Resolution/Grounds.antt =====
-- The rows of the store that a Decision rests on.
use connect_governance.Prelude.{
  ℕ, String, ◌≡◌, subst, ◌↔◌, List, [], ◌∷◌, ◌==◌, eq_iff, filter, Any, ok, >>=-eq-ok, Bool-cases,
  inl, inr,
}
use connect_governance.Kernel.Types.{AuthorityEvidence}
use connect_governance.Kernel.Timestamp.{parse_rfc3339}
use connect_governance.Kernel.Evidence.{Host}
use connect_governance.Kernel.Authority.Window.{InForce}
use connect_governance.Kernel.Evaluate.Demands.{Grants}
use connect_governance.Codec.{Codec}
use connect_governance.Schema.{AuthorityRelationship}
use connect_governance.Store.{Database, Session}
use connect_governance.Resolution.{evidence_of, evidence_of_all, resolve_authority_evidence}

module _ (keys : Codec (List String)) (P : AuthorityEvidence → Type 0) where
  -- The row reads as evidence that satisfies `P`.
  abbrev pub ReadsAs : AuthorityRelationship → Type 0
  ReadsAs row = (ev : AuthorityEvidence) × (evidence_of keys row ≡ ok ev) × P ev

  Any-evidence_of_all :
      (rows : List AuthorityRelationship) (evs : List AuthorityEvidence)
      → evidence_of_all keys rows ≡ ok evs
      → Any P evs
      → Any ReadsAs rows
  unfolding evidence_of_all
  Any-evidence_of_all rows [] h w = absurd w
  Any-evidence_of_all [] (ev ∷ evs) h w = cc
  Any-evidence_of_all (r ∷ rows) (ev ∷ evs) h w =
      let (v, e, h₁) = >>=-eq-ok (evidence_of keys r) _ h in
      let (vs, e', h₂) = >>=-eq-ok (evidence_of_all keys rows) _ h₁ in
      elim w [
        | inl p ↦ inl (ev, cc, p)
        | inr q ↦
            let e'' : evidence_of_all keys rows ≡ ok evs = cc in
            inr (Any-evidence_of_all rows evs e'' q)
      ]

  Any-of_ReadsAs :
      (rows : List AuthorityRelationship) (evs : List AuthorityEvidence)
      → evidence_of_all keys rows ≡ ok evs
      → Any ReadsAs rows
      → Any P evs
  unfolding evidence_of_all
  Any-of_ReadsAs [] evs h w = absurd w
  Any-of_ReadsAs (r ∷ rows) [] h w =
      let (v, e, h₁) = >>=-eq-ok (evidence_of keys r) _ h in
      let (vs, e', h₂) = >>=-eq-ok (evidence_of_all keys rows) _ h₁ in cc h₂
  Any-of_ReadsAs (r ∷ rows) (ev ∷ evs) h w =
      let (v, e, h₁) = >>=-eq-ok (evidence_of keys r) _ h in
      let (vs, e', h₂) = >>=-eq-ok (evidence_of_all keys rows) _ h₁ in
      elim w [
        | inl (x, read, p) ↦ let same : x ≡ ev = cc in inl (subst P same p)
        | inr q ↦
            let e'' : evidence_of_all keys rows ≡ ok evs = cc in inr (Any-of_ReadsAs rows evs e'' q)
      ]

  -- The row relates the principal, and reads as evidence that satisfies `P`.
  abbrev pub Relates : String → AuthorityRelationship → Type 0
  Relates p r = (r.principal_id ≡ p) × ReadsAs r

  Any-filter :
      (p : String) (rows : List AuthorityRelationship)
      → Any ReadsAs (filter (λ r. r.principal_id == p) rows) ↔ Any (Relates p) rows
  Any-filter p [] = (λ w. w, λ w. w)
  Any-filter p (r ∷ rows) =
      let rest = Any-filter p rows in
      elim (Bool-cases (r.principal_id == p)) [
        | inl e ↦ rw e (
          λ w. elim w [ inl v ↦ inl ((eq_iff r.principal_id p).0 e, v) | inr v ↦ inr (rest.0 v) ],
          λ w. elim w [ inl v ↦ inl v.1 | inr v ↦ inr (rest.1 v) ],
        )
        | inr e ↦ rw e (
          λ w. inr (rest.0 w),
          λ w. elim w [ inl v ↦ cc ((eq_iff r.principal_id p).1 v.0) | inr v ↦ rest.1 v ],
        )
      ]

  -- Evidence is resolved from the rows that relate the principal, from all of them and no others.
  pub resolve_authority_evidence_iff :
      {F : Type 0} (db : Database F) (s : Session db) (p : String) {evs : List AuthorityEvidence}
      → resolve_authority_evidence db keys s p ≡ ok evs
      → Any P evs ↔ Any (Relates p) (db.authority_relationships.scan s.authority_relationships)
  unfolding resolve_authority_evidence
  resolve_authority_evidence_iff db s p {evs} h =
      let rows = db.authority_relationships.scan s.authority_relationships in
      let there = Any-filter p rows in
      (λ w. there.0 (Any-evidence_of_all _ evs h w), λ w. Any-of_ReadsAs _ evs h (there.1 w))

module _ {F : Type 0} (host : Host F) (db : Database F) (keys : Codec (List String)) where
  -- The evidence grants the key, and is in force at the time.
  abbrev pub Grounds : (key at : String) → AuthorityEvidence → Type 0
  Grounds key at ev =
      Grants ev.granted_authorities key
      × (t : ℕ) × (parse_rfc3339 host.fromisoformat at ≡ ok t)
      × InForce host t ev

  -- A row of the store grants the principal the key, in force at the time.
  abbrev pub IsGranted : Session db → (principal key at : String) → Type 0
  IsGranted s principal key at =
      Any (Relates keys (Grounds key at) principal)
        (db.authority_relationships.scan s.authority_relationships)

  pub Any-weaken :
      {A : Type 0} (P Q : A → Type 0) (xs : List A) → ((x : A) → P x → Q x) → Any P xs → Any Q xs
  Any-weaken P Q [] f w = absurd w
  Any-weaken P Q (x ∷ xs) f (inl p) = inl (f x p)
  Any-weaken P Q (x ∷ xs) f (inr w) = inr (Any-weaken P Q xs f w)

  -- Evidence names the principal of its row.
  pub principal_of_row :
      (r : AuthorityRelationship) {ev : AuthorityEvidence}
      → evidence_of keys r ≡ ok ev
      → r.principal_id ≡ ev.principal_id
  unfolding evidence_of
  principal_of_row r h =
      let (granted, e, e') = >>=-eq-ok (keys.decode r.granted_authorities) _ h in cc
