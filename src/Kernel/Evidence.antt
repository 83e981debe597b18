-- ===== src/Kernel/Evidence.antt =====
-- The evidence that the stages of `evaluate` accumulate, and what they take from Python.
use connect_governance.Prelude.{ℕ, String, Bool, Option, List, [], ◌∷◌, ◌++◌, map, elem}
use connect_governance.Kernel.Types.{ReasonCode, reason_value}
use connect_governance.Kernel.Timestamp.{Datetime}

-- What the Python host supplies: the order of the floats and `datetime.fromisoformat`.
pub record Host (F : Type 0) : Type 0 where
  -- 0.0 and `>`
  pub zero_float : F
  pub gt : F → F → Bool
  pub fromisoformat : List ℕ → Option Datetime

-- The lists that `evaluate` appends to.
pub record Evidence : Type 0 where
  pub reasons : List ReasonCode
  pub satisfied : List String
  pub failed : List String
  pub resolved : List String
  pub approvals : List String

abbrev pub no_evidence : Evidence
no_evidence = record { reasons = []; satisfied = []; failed = []; resolved = []; approvals = [] }

-- satisfied.append(c)
abbrev pub satisfy : String → Evidence → Evidence
satisfy c ev = record ev { satisfied = ev.satisfied ++ c ∷ [] }

-- reasons.append(r); failed.append(c)
abbrev pub fail : ReasonCode → String → Evidence → Evidence
fail r c ev = record ev { reasons = ev.reasons ++ r ∷ []; failed = ev.failed ++ c ∷ [] }

-- `code in codes`: members of a StrEnum compare by their values.
unfoldable pub elem_code : ReasonCode → List ReasonCode → Bool
unfolding reason_value
elem_code r rs = elem (reason_value r) (map reason_value rs)
