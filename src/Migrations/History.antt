-- ===== src/Migrations/History.antt =====
-- alembic/versions: upgrades and downgrades of a database, one revision at a time, along
-- `down_revision`, and what the database declares in every state that they reach.
pub mod Opening
pub mod Walk
pub mod Climb
use connect_governance.Prelude.{
  String, ◌≡◌, false, refl, sym, ap, ◌∙◌, subst, ◌⊎◌, inl, inr, Bool, true, Option, none, some,
  List, [], ◌∷◌, Any, All, all, arith, Option-cases,
}
use connect_governance.Migrations.{
  Table, Object, table, Catalog, Operation, create_table, Element, column, primary_key, string,
  table_of, set, effect, effects, and_then, map_option, Database, run,
}
use connect_governance.Migrations.Undo.{IsWellFormed, is_create, undo, effects-undo}
use connect_governance.Migrations.Versions.{Revision}

-- The row of `alembic_version`, if there is one, and the database.
pub record Deployment (D : Type 0) : Type 0 where
  pub version : Option String
  pub database : D

-- Alembic's own table, which holds the version; src/tests/test_migrations.py looks for it.
abbrev pub version_name : String
version_name = "alembic_version"

abbrev pub version_elements : List Element
version_elements = column "version_num" string false ∷ primary_key ("version_num" ∷ []) ∷ []

abbrev pub version_table : Object
version_table = table (table_of version_elements)

-- Alembic creates its table before it migrates, unless a table of that name is there.
abbrev pub opened : {D : Type 0} → Database D → Option Object → D → Option D
opened db (some (table t)) d = some d
opened db _ d = db.execute (create_table version_name version_elements) d

abbrev pub open_deployment : {D : Type 0} → Database D → D → Option D
open_deployment db d = opened db (db.inspect d version_name) d

-- The catalog with the version table added where it has none.
abbrev pub with_version_at : Option Object → Catalog → Catalog
with_version_at none c = set version_name version_table c
with_version_at (some o) c = c

abbrev pub with_version : Catalog → Catalog
with_version c = with_version_at (c version_name) c

module _ {D : Type 0} (db : Database D) (history : List Revision) where
  -- alembic upgrade +1 and alembic downgrade -1: the version table is ensured, then the calls of the
  -- migration run. A migration that fails leaves no state.
  pub data Step : Deployment D → Deployment D → Type 0 where
    upgrade :
        {v : Option String} {d o d' : D}
        → (r : Revision) → Any (λ q. q ≡ r) history
        → r.down_revision ≡ v
        → open_deployment db d ≡ some o
        → run db r.upgrade o ≡ some d'
        → Step
            (record { version = v; database = d })
            (record { version = some r.revision; database = d' })
    downgrade :
        {v : Option String} {d o d' : D}
        → (r : Revision) → Any (λ q. q ≡ r) history
        → v ≡ some r.revision
        → open_deployment db d ≡ some o
        → run db r.downgrade o ≡ some d'
        → Step
            (record { version = v; database = d })
            (record { version = r.down_revision; database = d' })

  pub data Reach (s : Deployment D) : Deployment D → Type 0 where
    here : Reach s s
    next : {t u : Deployment D} → Reach s t → Step t u → Reach s u

-- Each revision follows the one before it, no identifier comes twice, and each downgrade is the calls of
-- its upgrade, all of them `create` calls, undone from the last to the first.
abbrev pub Follows : Option String → List Revision → Type 0
Follows v [] = Unit
Follows v (r ∷ rs) =
    (r.down_revision ≡ v)
    × All (λ q. ¬ (some q.revision ≡ v)) (r ∷ rs)
    × (all is_create r.upgrade ≡ true)
    × (r.downgrade ≡ undo r.upgrade)
    × Follows (some r.revision) rs

-- From version `v` with catalog `c`, the upgrades along `rs` pass through version `w` with `e`.
pub data Passes : List Revision → Option String → Catalog → Option String → Catalog → Type 0 where
  at_start : {rs : List Revision} {v : Option String} {c : Catalog} → Passes rs v c v c
  after :
      {r : Revision} {rs : List Revision} {v w : Option String} {c m e : Catalog}
      → effects r.upgrade c ≡ some m
      → Passes rs (some r.revision) m w e
      → Passes (r ∷ rs) v c w e
