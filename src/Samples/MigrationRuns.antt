-- ===== src/Samples/MigrationRuns.antt =====
-- alembic/versions: a database that does what its statements say, upgraded and downgraded.
use connect_governance.Prelude.{◌≡◌, refl, ◌⊎◌, inl, Option, none, some, All}
use connect_governance.Migrations.{Catalog, effect, effects, Database, map_option, run}
use connect_governance.Migrations.Metadata.{declared}
use connect_governance.Migrations.Metadata.Declared.{metadata}
use connect_governance.Migrations.Undo.{IsWellFormed}
use connect_governance.Migrations.Names.{IsFree}
use connect_governance.Migrations.Versions.Script.{versions}
use connect_governance.Migrations.Versions.Initial.{initial, initial_upgrade, initial_downgrade}
use connect_governance.Migrations.History.{
  version_table, with_version, Deployment, Reach, here, next, upgrade, downgrade,
}
use connect_governance.Migrations.Head.{head, HasModel}
use connect_governance.Migrations.Agreement.{Reach-inspect, upgrade_to_head, Reach-HasModel}

map_option_id : (o : Option Catalog) → map_option (λ c. c) o ≡ o
map_option_id none = refl
map_option_id (some c) = refl

-- A database that is what it declares.
abbrev plain : Database Catalog
plain = record {
  inspect = λ c. c;
  execute = effect;
  inspect-execute = λ o d. map_option_id (effect o d);
}

-- A database in which nothing is declared.
abbrev fresh : Catalog
fresh n = none

fresh-IsWellFormed : IsWellFormed fresh
fresh-IsWellFormed n i h = cc

fresh-IsFree : IsFree (declared metadata) fresh
fresh-IsFree k = inl refl

abbrev or_empty : Option Catalog → Catalog
or_empty none = λ n. none
or_empty (some c) = c

abbrev first_slice : Catalog
first_slice = or_empty (effects initial_upgrade (with_version fresh))

abbrev taken_back : Catalog
taken_back = or_empty (effects initial_downgrade first_slice)

upgrade_to_head_example :
    (d' : Catalog) × Reach plain versions
      (record { version = none; database = fresh })
      (record { version = head; database = d' })
upgrade_to_head_example = upgrade_to_head plain fresh fresh-IsFree (inl refl)

abbrev start : Deployment Catalog
start = record { version = none; database = fresh }

abbrev at_slice : Deployment Catalog
at_slice = record { version = some "ba04fd9f1a6b"; database = first_slice }

abbrev returned : Deployment Catalog
returned = record { version = none; database = taken_back }

to_slice : Reach plain versions start at_slice
unfolding run effect effects
to_slice = next here (upgrade initial (inl refl) refl refl refl)

to_returned : Reach plain versions start returned
unfolding run effect effects
to_returned = next to_slice (downgrade initial (inl refl) refl refl refl)

Reach-inspect_example :
    (with_version taken_back ≡ with_version fresh)
    × ((start ≡ returned) ⊎ (with_version taken_back ≡ taken_back))
Reach-inspect_example =
    Reach-inspect plain fresh returned start fresh-IsWellFormed to_returned here refl

abbrev Head : Type 0
Head = (d' : Catalog) × Reach plain versions start (record { version = head; database = d' })

abbrev upgraded : Head
upgraded = upgrade_to_head plain fresh fresh-IsFree (inl refl)

Reach-HasModel_example :
    All (HasModel upgraded.0) metadata × (upgraded.0 "alembic_version" ≡ some version_table)
Reach-HasModel_example =
    Reach-HasModel plain fresh (record { version = head; database = upgraded.0 }) "alembic_version"
      fresh-IsWellFormed fresh-IsFree upgraded.1 refl refl
