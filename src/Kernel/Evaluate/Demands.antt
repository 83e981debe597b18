-- ===== src/Kernel/Evaluate/Demands.antt =====
-- What is asked of the parts of a request: the revision, the keys, the delegation.
use connect_governance.Prelude.{
  String, ◌≡◌, ◌↔◌, true, not, Option, none, some, List, arith, Any, elem-iff-Any, eq_iff, not_iff,
}
use connect_governance.Prelude.Int.{ℤ, ◌<ℤ◌, ltb_ℤ, ltb_ℤ-iff}
use connect_governance.Kernel.Types.{DelegationContext, Constraint, require_approval}
use connect_governance.Kernel.Evaluate.{revision_differs, option_is, too_deep}
use connect_governance.Kernel.Evaluate.Gates.{delegation_within}

-- The expected revision is the current one, where both are given.
abbrev pub IsFresh : Option String → Option String → Type 0
IsFresh (some expected) (some current) = expected ≡ current
IsFresh (some expected) none = Unit
IsFresh none current = Unit

-- The key is among the granted ones.
abbrev pub Grants : List String → String → Type 0
Grants granted key = Any (λ k. key ≡ k) granted

abbrev pub WithinDepth : ℤ → Option ℤ → Type 0
WithinDepth depth none = Unit
WithinDepth depth (some max_depth) = ¬ (max_depth <ℤ depth)

-- Delegated work stays within its depth, and asks for no key that the originating work lacks.
abbrev pub IsNarrowing : String → Option DelegationContext → Type 0
IsNarrowing required none = Unit
IsNarrowing required (some d) =
    WithinDepth d.depth d.max_depth × Grants d.granting_authorities required

abbrev pub IsApproval : {F : Type 0} → Constraint F → Type 0
IsApproval (require_approval i p a) = Unit
IsApproval _ = ⊥

pub IsFresh-iff :
    (expected current : Option String)
    → (not (revision_differs expected current) ≡ true) ↔ IsFresh expected current
IsFresh-iff (some e) (some c) =
    (λ h. (eq_iff e c).0 (ground arith), λ h. ground (arith, (eq_iff e c).1 h))
IsFresh-iff (some e) none = (λ h. tt, λ h. ground arith)
IsFresh-iff none c = (λ h. tt, λ h. ground arith)

WithinDepth-iff :
    (depth : ℤ) (max_depth : Option ℤ)
    → (not (too_deep depth max_depth) ≡ true) ↔ WithinDepth depth max_depth
WithinDepth-iff depth none = (λ h. tt, λ h. ground arith)
WithinDepth-iff depth (some m) = not_iff (ltb_ℤ m depth) (ltb_ℤ-iff m depth)

pub IsNarrowing-iff :
    (required : String) (o : Option DelegationContext)
    → (delegation_within required o ≡ true) ↔ IsNarrowing required o
IsNarrowing-iff required none = (λ h. tt, λ h. ground arith)
IsNarrowing-iff required (some d) =
    let depth = WithinDepth-iff d.depth d.max_depth in
    let keys = elem-iff-Any required d.granting_authorities in
    (
      λ h. (depth.0 (ground arith), keys.0 (ground arith)),
      λ (a, b). ground (arith, depth.1 a, keys.1 b),
    )

pub option_is_iff : (o : Option String) (v : String) → (option_is o v ≡ true) ↔ (o ≡ some v)
option_is_iff none v = (λ h. cc, λ h. cc)
option_is_iff (some w) v = (λ h. rw ((eq_iff w v).0 h), λ h. (eq_iff w v).1 cc)
