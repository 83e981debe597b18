-- ===== src/Migrations/Versions/Script.antt =====
-- alembic/versions: the migrations, each before the one that revises it.
use connect_governance.Prelude.{List, [], ◌∷◌}
use connect_governance.Migrations.Versions.{Revision}
use connect_governance.Migrations.Versions.Initial.{initial}
use connect_governance.Migrations.Versions.ExecutionGrants.{execution_grants}
use connect_governance.Migrations.Versions.RevocationLists.{revocation_lists}
use connect_governance.Migrations.Versions.ProviderMarketplace.{provider_marketplace}

abbrev pub versions : List Revision
versions = initial ∷ execution_grants ∷ revocation_lists ∷ provider_marketplace ∷ []
