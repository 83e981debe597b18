-- ===== src/Explanation/Prose.antt =====
-- The sentences of src/connect_governance/explanation.py.
use connect_governance.Prelude.{String, List, [], ◌∷◌}
use Prim.Native.String.{◌++◌ as text_append}
use connect_governance.Kernel.Types.{ReasonCode}

-- _REASON_PROSE, which has a sentence for every code.
unfoldable pub reason_prose : ReasonCode → String
reason_prose ReasonCode.expected_revision_stale =
    "The work changed after this request was prepared, so it was not applied to the newer version."
reason_prose ReasonCode.principal_inactive = "The requester's account is not active."
reason_prose ReasonCode.no_explicit_authority =
    "The requester has not been granted the permission this action needs."
reason_prose ReasonCode.authority_not_yet_effective =
    "The requester's permission has been granted but does not start until later."
reason_prose ReasonCode.authority_expired = "The requester's permission has expired."
reason_prose ReasonCode.authority_revoked = "The requester's permission was revoked."
reason_prose ReasonCode.delegation_would_expand =
    "This would give the delegated work more permission than the work it came from, which is never allowed."
reason_prose ReasonCode.delegation_depth_exceeded =
    "Work has been delegated too many times in a chain."
reason_prose ReasonCode.classification_required =
    "The data classification required by policy is missing or different."
reason_prose ReasonCode.classification_forbidden =
    "The data involved is classified in a way policy forbids for this action."
reason_prose ReasonCode.budget_ceiling_exceeded = "This would exceed the spending limit."
reason_prose ReasonCode.approval_triggered = "This needs a human approval before it can proceed."
reason_prose ReasonCode.permitted = "Permitted."

-- The parts of an f-string, put together.
abbrev pub joined : List String → String
joined [] = ""
joined (t ∷ ts) = text_append t (joined ts)

-- The sentences of _next_action, by the code that each is for: of two codes that share one, either.
unfoldable pub remedy : (required_authority principal_id : String) → ReasonCode → String
remedy required who ReasonCode.expected_revision_stale =
    "Reload the work and submit again against its current version."
remedy required who ReasonCode.principal_inactive =
    "Reactivate the requester's account, then submit again."
remedy required who ReasonCode.authority_expired =
    joined ("Have " ∷ required ∷ " granted again to " ∷ who ∷ ", then submit again." ∷ [])
remedy required who ReasonCode.authority_revoked =
    joined ("Have " ∷ required ∷ " granted again to " ∷ who ∷ ", then submit again." ∷ [])
remedy required who ReasonCode.authority_not_yet_effective =
    "Wait until the granted permission starts, then submit again."
remedy required who ReasonCode.no_explicit_authority =
    joined ("Grant " ∷ required ∷ " to " ∷ who ∷ ", then submit again." ∷ [])
remedy required who ReasonCode.delegation_would_expand =
    "Narrow this work to the permissions the originating work already has, or raise it as a new governed request."
remedy required who ReasonCode.delegation_depth_exceeded =
    "Raise this as a new governed request rather than a further delegation."
remedy required who ReasonCode.budget_ceiling_exceeded =
    "Raise the spending limit through a governed change, or reduce the scope."
remedy required who ReasonCode.classification_required =
    "Correct the data classification, or raise a governed policy exception."
remedy required who ReasonCode.classification_forbidden =
    "Correct the data classification, or raise a governed policy exception."
remedy required who ReasonCode.approval_triggered =
    "Review the proof view for the failed conditions."
remedy required who ReasonCode.permitted = "Review the proof view for the failed conditions."
