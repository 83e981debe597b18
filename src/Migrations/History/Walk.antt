-- ===== src/Migrations/History/Walk.antt =====
-- alembic/versions: what a database declares depends only on its version, whatever upgrades and
-- downgrades led to it.
use connect_governance.Prelude.{
  String, ◌≡◌, refl, sym, ap, ◌∙◌, subst, ◌⊎◌, inl, inr, Option, some, List, [], ◌∷◌, Any, All,
  Option-cases,
}
use connect_governance.Migrations.{Catalog, Operation, effect, effects, map_option, Database, run}
use connect_governance.Migrations.Undo.{IsWellFormed, undo, effects-undo}
use connect_governance.Migrations.Versions.{Revision}
use connect_governance.Migrations.History.Opening.{
  with_version_stays, with_version-IsWellFormed, inspect-open_deployment,
}
use connect_governance.Migrations.History.{
  with_version, Deployment, Step, at_start, after, upgrade, downgrade, Reach, here, next, Follows,
  Passes,
}

abbrev Holds : Option String → List Revision → Type 0
Holds v rs = Any (λ q. some q.revision ≡ v) rs

All-refute :
    (v : Option String) (rs : List Revision) → All (λ q. ¬ (some q.revision ≡ v)) rs → ¬ Holds v rs
All-refute v [] a h = h
All-refute v (r ∷ rs) (n, a) (inl p) = n p
All-refute v (r ∷ rs) (n, a) (inr h) = All-refute v rs a h

Passes-version :
    {rs : List Revision} {v w : Option String} {c e : Catalog}
    → Passes rs v c w e
    → (w ≡ v) ⊎ Holds w rs
Passes-version at_start = inl refl
Passes-version (after f t) = elim (Passes-version t) [
  | inl p ↦ inr (inl (sym p))
  | inr a ↦ inr (inr a)
]

down_revision-Holds :
    (rs : List Revision) {v : Option String} (r : Revision)
    → Follows v rs
    → Any (λ q. q ≡ r) rs
    → (r.down_revision ≡ v) ⊎ Holds r.down_revision rs
down_revision-Holds [] r f a = absurd a
down_revision-Holds (q ∷ rs) r f (inl p) = inl (ap (λ x. x.down_revision) (sym p) ∙ f.0)
down_revision-Holds (q ∷ rs) r (p, n, c, u, f) (inr a) = elim (down_revision-Holds rs r f a) [
  | inl h ↦ inr (inl (sym h))
  | inr h ↦ inr (inr h)
]

-- A history that follows on `v` does not come back to it.
moves_on :
    (r : Revision) (rs : List Revision) {v w : Option String} {m e : Catalog}
    → All (λ q. ¬ (some q.revision ≡ v)) (r ∷ rs)
    → Passes rs (some r.revision) m w e
    → ¬ (w ≡ v)
moves_on r rs {v} (n, ns) t same = elim (Passes-version t) [
  | inl h ↦ n (sym h ∙ same)
  | inr h ↦ All-refute v rs ns (subst (λ y. Holds y rs) same h)
]

Passes-start :
    {rs : List Revision} {v w : Option String} {c e : Catalog}
    → Follows v rs
    → w ≡ v
    → Passes rs v c w e
    → e ≡ c
Passes-start f same at_start = refl
Passes-start f same (after {r} {rs} x t) = absurd (moves_on r rs f.1 t same)

-- An upgrade is the next one of the history.
Passes-upgrade :
    {rs : List Revision} {v w : Option String} {c e e' : Catalog} (r : Revision)
    → Follows v rs
    → Passes rs v c w e
    → Any (λ q. q ≡ r) rs
    → r.down_revision ≡ w
    → effects r.upgrade e ≡ some e'
    → Passes rs v c (some r.revision) e'
Passes-upgrade {rs = []} r f t a d h = absurd a
Passes-upgrade {rs = q ∷ rs} {e = e} {e'} r f at_start (inl x) d h =
    after (ap (λ y. effects y.upgrade e) x ∙ h)
      (subst (λ y. Passes rs (some y.revision) e' (some r.revision) e') (sym x) at_start)
Passes-upgrade {rs = q ∷ rs} {v} r (g, n, c, u, f) at_start (inr a) d h =
    elim (down_revision-Holds rs r f a) [
      | inl x ↦ absurd (n.0 (sym x ∙ d))
      | inr x ↦ absurd (All-refute v rs n.1 (subst (λ y. Holds y rs) d x))
    ]
Passes-upgrade {rs = q ∷ rs} r (g, n, c, u, f) (after x t) (inl same) d h =
    absurd (moves_on q rs n t (sym d ∙ ap (λ y. y.down_revision) (sym same) ∙ g))
Passes-upgrade {rs = q ∷ rs} r (g, n, c, u, f) (after x t) (inr a) d h =
    after x (Passes-upgrade r f t a d h)

Holds-of_Any :
    (rs : List Revision) (r : Revision) → Any (λ q. q ≡ r) rs → Holds (some r.revision) rs
Holds-of_Any [] r a = a
Holds-of_Any (q ∷ rs) r (inl x) = inl (ap (λ y. some y.revision) x)
Holds-of_Any (q ∷ rs) r (inr a) = inr (Holds-of_Any rs r a)

-- A downgrade takes the last upgrade back.
Passes-downgrade :
    {rs : List Revision} {v w : Option String} {c e e' : Catalog} (r : Revision)
    → Follows v rs
    → IsWellFormed c
    → Passes rs v c w e
    → Any (λ q. q ≡ r) rs
    → w ≡ some r.revision
    → effects r.downgrade e ≡ some e'
    → Passes rs v c r.down_revision e'
Passes-downgrade {rs = []} r f wf t a d h = absurd a
Passes-downgrade {rs = q ∷ rs} {v} r (g, n, cr, u, f) wf at_start a d h =
    absurd
      (All-refute v (q ∷ rs) n (subst (λ y. Holds y (q ∷ rs)) (sym d) (Holds-of_Any (q ∷ rs) r a)))
Passes-downgrade {rs = q ∷ rs} {v} {c = c} {e = e} {e'} r (g, n, cr, u, f) wf (after {m} x t)
      (inl same) d h =
    let last : e ≡ m = Passes-start f (d ∙ ap (λ y. some y.revision) (sym same)) t in
    let (wf_m, back) = effects-undo q.upgrade c cr wf x in
    let undone : effects r.downgrade e ≡ some c =
      ap (λ y. effects y.downgrade e) (sym same)
      ∙ ap (λ y. effects y e) u
      ∙ ap (effects (undo q.upgrade)) last
      ∙ back in
    let returned : c ≡ e' = cc in
    subst (λ y. Passes (q ∷ rs) v c y e') (sym g ∙ ap (λ y. y.down_revision) same)
      (subst (λ y. Passes (q ∷ rs) v c v y) returned at_start)
Passes-downgrade {rs = q ∷ rs} {c = c} r (g, n, cr, u, f) wf (after x t) (inr a) d h =
    after x (Passes-downgrade r f (effects-undo q.upgrade c cr wf x).0 t a d h)

-- One version has one catalog.
pub Passes-unique :
    {rs : List Revision} {v w x : Option String} {c e e' : Catalog}
    → Follows v rs
    → w ≡ x
    → Passes rs v c w e
    → Passes rs v c x e'
    → e ≡ e'
Passes-unique f p at_start t = sym (Passes-start f (sym p) t)
Passes-unique f p t at_start = Passes-start f p t
Passes-unique {rs = r ∷ rs} {x = w'} {e' = e'} (g, n, cr, u, f) p (after {m} x t)
      (after {m = m'} y s) =
    let same : m ≡ m' = cc in
    Passes-unique f p t (subst (λ z. Passes rs (some r.revision) z w' e') (sym same) s)

module _ {D : Type 0} (db : Database D) where
  run-effects :
      (os : List Operation) (d : D) {d' : D}
      → run db os d ≡ some d'
      → effects os (db.inspect d) ≡ some (db.inspect d')
  unfolding run effects
  run-effects [] d h = ap (map_option db.inspect) h
  run-effects (o ∷ os) d h = elim (Option-cases (db.execute o d)) [
    | inl e ↦ cc (rw e at h)
    | inr (m, e) ↦
        let first : effect o (db.inspect d) ≡ some (db.inspect m) =
          sym (db.inspect-execute o d) ∙ ap (map_option db.inspect) e in
        rw first (run-effects os m (rw e at h))
  ]

  module _ (history : List Revision) (start : Option String) where
    -- From the start with the version table, as far as the version of the state.
    abbrev StartPasses : D → Option String → Catalog → Type 0
    StartPasses d = Passes history start (with_version (db.inspect d))

    Step-Passes :
        {d : D} {t u : Deployment D}
        → Follows start history
        → IsWellFormed (db.inspect d)
        → StartPasses d t.version (with_version (db.inspect t.database))
        → Step db history t u
        → StartPasses d u.version (db.inspect u.database)
    Step-Passes f wf there (upgrade {d = e} {o} r a v opens h) = Passes-upgrade r f there a v (
        ap (effects r.upgrade) (sym (inspect-open_deployment db e opens))
        ∙ run-effects r.upgrade o h)
    Step-Passes {d = d} f wf there (downgrade {d = e} {o} r a v opens h) =
        Passes-downgrade r f (with_version-IsWellFormed (db.inspect d) wf) there a v (
          ap (effects r.downgrade) (sym (inspect-open_deployment db e opens))
          ∙ run-effects r.downgrade o h)

    pub Reach-Passes :
        {d : D} {s : Deployment D}
        → Follows start history
        → IsWellFormed (db.inspect d)
        → Reach db history (record { version = start; database = d }) s
        → StartPasses d s.version (with_version (db.inspect s.database))
    Reach-Passes f wf here = at_start
    Reach-Passes {d} f wf (next {u = u} t step) =
        let there = Step-Passes {d = d} f wf (Reach-Passes f wf t) step in
        subst (StartPasses d u.version) (sym (with_version_stays (db.inspect d) f there)) there

    -- Every state but the start has the version table.
    pub Reach-with_version :
        {d : D} {s : Deployment D}
        → Follows start history
        → IsWellFormed (db.inspect d)
        → Reach db history (record { version = start; database = d }) s
        → (record { version = start; database = d } ≡ s)
          ⊎ (with_version (db.inspect s.database) ≡ db.inspect s.database)
    Reach-with_version f wf here = inl refl
    Reach-with_version {d} f wf (next t step) =
        inr (
          with_version_stays (db.inspect d) f (Step-Passes {d = d} f wf (Reach-Passes f wf t) step))
