-- ===== src/Explanation/Stages.antt =====
-- The stage that a condition is shown under, from the stage order of the Kernel.
use connect_governance.Prelude.{String, List, [], ◌∷◌, elem, if◌then◌else◌}
use text.Mathlib.Text.{starts_with}
use connect_governance.Kernel.Types.{
  Constraint, require_classification, forbid_classification, budget_ceiling, require_approval,
}

-- STAGE_ORDER
abbrev pub stage_order : List String
stage_order =
    "structural" ∷ "principal" ∷ "authority" ∷ "delegation" ∷ "constraints" ∷ "approval" ∷ []

-- _CONDITION_PREFIX_STAGE
abbrev pub condition_prefix_stage : List (String × String)
condition_prefix_stage =
    ("structural.", "structural")
    ∷ ("principal.", "principal")
    ∷ ("authority.", "authority")
    ∷ ("delegation.", "delegation")
    ∷ []

abbrev pub stage_by_prefix : String → List (String × String) → String
stage_by_prefix condition [] = "constraints"
stage_by_prefix condition ((prefix, stage) ∷ rest) =
    if starts_with condition prefix then stage else stage_by_prefix condition rest

abbrev pub stage_for_condition : String → List String → String
stage_for_condition condition constraint_ids =
    if elem condition constraint_ids
    then "constraints"
    else stage_by_prefix condition condition_prefix_stage

-- c.constraint_id
abbrev pub constraint_id : {F : Type 0} → Constraint F → String
constraint_id (require_classification i p k v) = i
constraint_id (forbid_classification i p k v) = i
constraint_id (budget_ceiling i p k l) = i
constraint_id (require_approval i p a) = i
