-- ===== src/Migrations/History/Opening.antt =====
-- alembic/versions: the version table, which is there before a migration runs and stays.
use connect_governance.Prelude.{
  String, ◌≡◌, refl, sym, ap, ◌∙◌, ◌⊎◌, inl, inr, true, Option, none, some, List, [], ◌∷◌, all,
  arith, Option-cases,
}
use connect_governance.Migrations.{
  Table, Object, table, index, Catalog, Operation, create_table, create_index, drop_index,
  drop_table, table_of, set, effect, effects, map_option, Database,
}
use connect_governance.Migrations.Undo.{
  IsWellFormed, is_create, set_keeps, set_same, set-IsWellFormed_table, if_absent-eq-some,
  if_table-eq-some, and_then-eq-some,
}
use connect_governance.Migrations.Versions.{Revision}
use connect_governance.Migrations.History.{
  version_name, version_elements, version_table, opened, open_deployment, with_version_at,
  with_version, Follows, Passes, at_start, after,
}

-- A table or nothing has the name of the version table.
abbrev pub IsOpenable : Option Object → Type 0
IsOpenable o = (o ≡ none) ⊎ ((t : Table) × (o ≡ some (table t)))

-- `create` calls keep what is there.
effect_keeps :
    (o : Operation) (k : String) (p : Object) (c : Catalog) {e : Catalog}
    → is_create o ≡ true
    → effect o c ≡ some e
    → c k ≡ some p
    → e k ≡ some p
unfolding effect
effect_keeps (create_table n es) k p c a h there =
    let t = table_of es in
    let (absent, made) = if_absent-eq-some (c n) (set n (table t) c) h in
    ap (λ x. x k) (sym made) ∙ set_keeps n (table t) p c k absent there
effect_keeps (create_index n i) k p c a h there =
    let (t, has, inner) = if_table-eq-some (c i.table_name) _ h in
    let (absent, made) = if_absent-eq-some (c n) (set n (index i) c) inner in
    ap (λ x. x k) (sym made) ∙ set_keeps n (index i) p c k absent there
effect_keeps (drop_index t n) k p c a h there = cc
effect_keeps (drop_table n) k p c a h there = cc

pub effects_keep :
    (os : List Operation) (k : String) (p : Object) (c : Catalog) {e : Catalog}
    → all is_create os ≡ true
    → effects os c ≡ some e
    → c k ≡ some p
    → e k ≡ some p
unfolding effects
effects_keep [] k p c {e = e} a h there = let same : c ≡ e = cc in ap (λ x. x k) (sym same) ∙ there
effects_keep (o ∷ os) k p c a h there =
    let (m, first, rest) = and_then-eq-some (effect o c) (effects os) h in
    effects_keep os k p m (ground arith) rest (effect_keeps o k p c (ground arith) first there)

-- No upgrade on the way drops a name.
pub Passes-keep :
    {rs : List Revision} {v w : Option String} {c e : Catalog} (k : String) (p : Object)
    → Follows v rs
    → Passes rs v c w e
    → c k ≡ some p
    → e k ≡ some p
Passes-keep k p f at_start there = there
Passes-keep {c = c} k p f (after {r} x t) there =
    Passes-keep k p f.4 t (effects_keep r.upgrade k p c f.2 x there)

with_version_there :
    (o : Option Object) (c : Catalog)
    → c version_name ≡ o
    → (p : Object) × (with_version_at o c version_name ≡ some p)
with_version_there none c h = (version_table, set_same version_name version_table c)
with_version_there (some p) c h = (p, h)

-- The version table stays along the upgrades, so that it is not created again.
pub with_version_stays :
    {rs : List Revision} {v w : Option String} {e : Catalog} (c : Catalog)
    → Follows v rs
    → Passes rs v (with_version c) w e
    → with_version e ≡ e
with_version_stays {e = e} c f t =
    let (p, there) = with_version_there (c version_name) c refl in
    ap (λ o. with_version_at o e) (Passes-keep version_name p f t there)

pub with_version-IsWellFormed : (c : Catalog) → IsWellFormed c → IsWellFormed (with_version c)
with_version-IsWellFormed c wf = elim (Option-cases (c version_name)) [
  | inl e ↦ rw e (set-IsWellFormed_table version_name (table_of version_elements) c e wf)
  | inr (o, e) ↦ rw e wf
]

-- What `open_deployment` leaves declares the version table beside what was declared.
pub inspect-open_deployment :
    {D : Type 0} (db : Database D) (d : D) {o : D}
    → open_deployment db d ≡ some o
    → db.inspect o ≡ with_version (db.inspect d)
unfolding effect
inspect-open_deployment db d {o} h = by_name (db.inspect d version_name) refl h
  where
    executed :
        db.execute (create_table version_name version_elements) d ≡ some o
        → effect (create_table version_name version_elements) (db.inspect d) ≡ some (db.inspect o)
    executed g =
        sym (db.inspect-execute (create_table version_name version_elements) d)
        ∙ ap (map_option db.inspect) g

    by_name :
        (x : Option Object)
        → db.inspect d version_name ≡ x
        → opened db x d ≡ some o
        → db.inspect o ≡ with_version_at x (db.inspect d)
    by_name none e g = cc (rw e at (executed g))
    by_name (some (table t)) e g = ap db.inspect cc
    by_name (some (index i)) e g = cc (rw e at (executed g))

-- A deployment opens if no index has the name of the version table.
pub open_deployment-opens :
    {D : Type 0} (db : Database D) (d : D)
    → IsOpenable (db.inspect d version_name)
    → (o : D) × (open_deployment db d ≡ some o)
      × ((t : Table) × (db.inspect o version_name ≡ some (table t)))
unfolding effect
open_deployment-opens db d (inr (t, e)) = (d, rw e refl, (t, e))
open_deployment-opens db d (inl e) =
    elim (Option-cases (db.execute (create_table version_name version_elements) d)) [
      | inl x ↦
          let refused : effect (create_table version_name version_elements) (db.inspect d) ≡ none =
            sym (db.inspect-execute (create_table version_name version_elements) d)
            ∙ ap (map_option db.inspect) x in
          cc (rw e at refused)
      | inr (o, x) ↦
          let made : open_deployment db d ≡ some o = rw e x in
          (
            o,
            made,
            (
              table_of version_elements,
              ap (λ c. c version_name) (inspect-open_deployment db d made) ∙ rw e refl,
            ),
          )
    ]
