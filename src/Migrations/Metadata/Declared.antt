-- ===== src/Migrations/Metadata/Declared.antt =====
-- src/connect_governance/db/models.py: `Base.metadata`.
use connect_governance.Prelude.{List, [], ◌∷◌}
use connect_governance.Migrations.Metadata.{Model}
use connect_governance.Migrations.Metadata.Principals.{
  organization_model, workspace_model, person_model, agent_model, authority_relationship_model,
  genesis_record_model,
}
use connect_governance.Migrations.Metadata.Work.{
  work_request_model, work_request_revision_model, decision_record_model,
}
use connect_governance.Migrations.Metadata.Artifacts.{
  execution_grant_record_model, provider_listing_model, provider_activation_model,
  revocation_list_record_model,
}

-- The classes in the order of the module.
abbrev pub metadata : List Model
metadata =
    organization_model ∷ workspace_model ∷ person_model ∷ agent_model ∷ authority_relationship_model
    ∷ work_request_model ∷ work_request_revision_model ∷ genesis_record_model
    ∷ decision_record_model ∷ execution_grant_record_model ∷ provider_listing_model
    ∷ provider_activation_model ∷ revocation_list_record_model ∷ []
