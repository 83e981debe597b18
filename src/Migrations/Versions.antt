-- ===== src/Migrations/Versions.antt =====
-- alembic/versions: a migration module, and the history that `down_revision` spells.
pub mod Initial
pub mod ExecutionGrants
pub mod RevocationLists
pub mod ProviderMarketplace
pub mod Script
use connect_governance.Prelude.{String, Option, List}
use connect_governance.Migrations.{Operation}

pub record Revision : Type 0 where
  pub revision : String
  pub down_revision : Option String
  pub upgrade : List Operation
  pub downgrade : List Operation
