-- ===== src/Migrations/Agreement.antt =====
-- alembic/versions and src/connect_governance/db/models.py: the head of the migrations declares what
-- the classes declare, as src/tests/test_migrations.py asks of one database.
use connect_governance.Prelude.{
  String, ◌≡◌, refl, sym, ap, ◌∙◌, subst, inl, inr, Option, none, dict_get, All, eq_iff, Bool-cases,
  Option-cases, ◌⊎◌, ◌==◌,
}
use connect_governance.Migrations.{Catalog, effects, Database}
use connect_governance.Migrations.Metadata.{declared}
use connect_governance.Migrations.Metadata.Declared.{metadata}
use connect_governance.Migrations.Undo.{IsWellFormed}
use connect_governance.Migrations.Names.{created, IsFree, overlay}
use connect_governance.Migrations.Versions.Script.{versions}
use connect_governance.Migrations.History.{Deployment, Reach, here, version_name, with_version}
use connect_governance.Migrations.History.Opening.{
  IsOpenable, open_deployment-opens, inspect-open_deployment,
}
use connect_governance.Migrations.History.Walk.{Reach-with_version, Passes-unique, Reach-Passes}
use connect_governance.Migrations.History.Climb.{upgrades, Passes-upgrades, Reach-upgrades}
use connect_governance.Migrations.Head.{
  head, HasModel, versions-Follows, overlay-HasModel, dict_get-created, effects-versions,
}

IsFree-with_version :
    (c : Catalog) → IsFree (declared metadata) c → IsFree (declared metadata) (with_version c)
IsFree-with_version c free k = elim (Option-cases (c version_name)) [
  | inl e ↦ elim (Bool-cases (version_name == k)) [
    | inl named ↦ inr (rw (← (eq_iff version_name k).0 named) refl)
    | inr other ↦ elim (free k) [ inl gone ↦ inl (rw (e, other) gone) | inr o ↦ inr o ]
  ]
  | inr (o, e) ↦ rw e (free k)
]

module _ {D : Type 0} (db : Database D) (d : D) where
  -- Whatever upgrades and downgrades are run, in whatever order, a database that started without a
  -- version declares in every state what its version says: two states with one version declare the
  -- same tables and indexes, once the version table is added to one that lacks it; and no state
  -- lacks it but the start. A downgrade to the base so gives back what was declared at the start,
  -- with the version table. The database does what its statements are documented to do, and its
  -- indexes are of its tables.
  pub Reach-inspect :
      (s t : Deployment D)
      → IsWellFormed (db.inspect d)
      → Reach db versions (record { version = none; database = d }) s
      → Reach db versions (record { version = none; database = d }) t
      → s.version ≡ t.version
      → (with_version (db.inspect s.database) ≡ with_version (db.inspect t.database))
        × ((record { version = none; database = d } ≡ s)
            ⊎ (with_version (db.inspect s.database) ≡ db.inspect s.database))
  Reach-inspect s t wf to_s to_t same = (
    Passes-unique versions-Follows same (Reach-Passes db versions none versions-Follows wf to_s)
        (Reach-Passes db versions none versions-Follows wf to_t),
    Reach-with_version db versions none versions-Follows wf to_s,
  )

  -- The four upgrades run to the head on every database without a version that declares none of the
  -- names that the classes of `db/models.py` declare, and no index under the name of the version
  -- table.
  pub upgrade_to_head :
      IsFree (declared metadata) (db.inspect d)
      → IsOpenable (db.inspect d version_name)
      → (d' : D) × Reach db versions
          (record { version = none; database = d })
          (record { version = head; database = d' })
  upgrade_to_head free openable =
      let (o, opens, (t, there)) = open_deployment-opens db d openable in
      Reach-upgrades db versions versions (record { version = none; database = d }) none d o
        versions-Follows
        (inl refl, (inr (inl refl), (inr (inr (inl refl)), (inr (inr (inr (inl refl))), tt)))) opens
        there
        (ap (effects (upgrades versions)) (inspect-open_deployment db d opens)
          ∙ effects-versions (with_version (db.inspect d))
              (IsFree-with_version (db.inspect d) free))
        here

  -- In every state at the head, the database declares for each class of `db/models.py` the table with
  -- its columns in order, its types, its nullability, its primary key, its foreign keys and its unique
  -- and check constraints, and the indexes of the columns with `index=True`; a name `k` that no class
  -- declares stands as at the start, except that Alembic's version table was created if the start
  -- lacked it. The start had no version and none of the declared names, and its indexes were of its
  -- tables.
  pub Reach-HasModel :
      (s : Deployment D) (k : String)
      → IsWellFormed (db.inspect d)
      → IsFree (declared metadata) (db.inspect d)
      → Reach db versions (record { version = none; database = d }) s
      → s.version ≡ head
      → dict_get k (declared metadata) ≡ none
      → All (HasModel (db.inspect s.database)) metadata
        × (db.inspect s.database k ≡ with_version (db.inspect d) k)
  Reach-HasModel s k wf free to_s at_head undeclared =
      let c = with_version (db.inspect d) in
      let final = overlay (created (upgrades versions)) c in
      let reached : final ≡ with_version (db.inspect s.database) =
        Passes-unique versions-Follows (sym at_head)
          (Passes-upgrades versions none c
            (effects-versions c (IsFree-with_version (db.inspect d) free)))
          (Reach-Passes db versions none versions-Follows wf to_s) in
      let opened : with_version (db.inspect s.database) ≡ db.inspect s.database =
        elim (Reach-with_version db versions none versions-Follows wf to_s) [
          | inl e ↦
              let stays : ◌≡◌ {A = Option String} none head =
                ap (λ (x : Deployment D). x.version) e ∙ at_head in
              cc stays
          | inr e ↦ e
        ] in
      let made = reached ∙ opened in
      (
        subst (λ e. All (HasModel e) metadata) made (overlay-HasModel c),
        ap (λ e. e k) (sym made) ∙ rw (dict_get-created k undeclared) refl,
      )
