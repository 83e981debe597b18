-- ===== src/Samples.antt =====
-- A concrete host, store and codec, on which the theorems and the tests are tried out.
pub mod Store
pub mod Requests
mod Keys
mod KernelRuns
mod GovernanceRuns
mod ResolutionRuns
mod ProviderRuns
mod SigningRuns
mod GrantRuns
mod RevocationRuns
mod MigrationRuns
mod CanonicalRuns
mod CoveredRuns
mod ExplanationRuns
use Prim.Native.Nat.{◌+◌, ◌*◌, ◌-◌}
use connect_governance.Prelude.{
  ℕ, Bool, true, false, Option, none, some, List, [], ◌∷◌, leb, ltb, ◌&&◌, ◌=ℕ◌, if◌then◌else◌,
}
use connect_governance.Kernel.Timestamp.{Datetime}
use connect_governance.Kernel.Evidence.{Host}

-- The digits before an offset are the instant.
abbrev pub read_instant : ℕ → List ℕ → Option Datetime
read_instant n [] = some (Datetime.naive n)
read_instant n (c ∷ cs) =
    let rest = read_instant (10 * n + (c - b'0')) cs in
    if leb b'0' c && leb c b'9' then rest else if c =ℕ b'+' then some (Datetime.aware n) else none

-- Floats are counted in cents.
abbrev pub sample_host : Host ℕ
sample_host = record { zero_float = 0; gt = λ a b. ltb b a; fromisoformat = read_instant 0 }
