-- ===== src/Kernel/Evaluate/Stages.antt =====
-- The reason codes of a Decision stand in the normative stage order.
use connect_governance.Prelude.{
  All-weaken, ℕ, ◌≤◌, String, ◌≡◌, refl, Bool, true, false, Option, none, some, List, [], ◌∷◌, ◌++◌,
  arith, elem, ◌&&◌, sym, append_assoc, append-nil, is_nil, All, Bool-cases, inl, inr,
  if◌then◌else◌, ok,
}
use connect_governance.Kernel.Types.{
  ReasonCode, DelegationContext, Constraint, require_classification, forbid_classification,
  budget_ceiling, require_approval, DecisionRequest, Decision,
}
use connect_governance.Kernel.Evidence.{Host, Evidence, no_evidence, satisfy, fail, elem_code}
use connect_governance.Kernel.Authority.{Assessment, ineffective_codes, conclude_authority}
use connect_governance.Kernel.Evaluate.{
  structural, principal, delegation_checks, delegation, too_deep, constrain, constrain_all,
  approval, conclude, final_reasons, evaluate,
}
use connect_governance.Kernel.Evaluate.Gates.{gathered, evaluate-eq-ok}

-- The place of a code: the stage that emits it, in tens, and its place within the stage.
abbrev pub rank : ReasonCode → ℕ
rank ReasonCode.expected_revision_stale = 10
rank ReasonCode.principal_inactive = 20
rank ReasonCode.no_explicit_authority = 30
rank ReasonCode.authority_revoked = 31
rank ReasonCode.authority_not_yet_effective = 32
rank ReasonCode.authority_expired = 33
rank ReasonCode.delegation_depth_exceeded = 40
rank ReasonCode.delegation_would_expand = 41
rank ReasonCode.classification_required = 50
rank ReasonCode.classification_forbidden = 50
rank ReasonCode.budget_ceiling_exceeded = 50
rank ReasonCode.approval_triggered = 60
rank ReasonCode.permitted = 70

-- No code stands behind one of a later place.
abbrev pub IsStaged : List ReasonCode → Type 0
IsStaged [] = Unit
IsStaged (r ∷ rs) = All (λ s. rank r ≤ rank s) rs × IsStaged rs

-- The codes so far are staged, and none has a place behind `k`.
pub record UpTo (k : ℕ) (rs : List ReasonCode) : Type 0 where
  pub staged : IsStaged rs
  pub below : All (λ r. rank r ≤ k) rs

All-append_one :
    (P : ReasonCode → Type 0) (rs : List ReasonCode) (r : ReasonCode)
    → All P rs
    → P r
    → All P (rs ++ r ∷ [])
All-append_one P [] r h p = (p, tt)
All-append_one P (x ∷ rs) r h p = (h.0, All-append_one P rs r h.1 p)

IsStaged-append_one :
    (k : ℕ) (rs : List ReasonCode) (r : ReasonCode)
    → IsStaged rs
    → All (λ x. rank x ≤ k) rs
    → k ≤ rank r
    → IsStaged (rs ++ r ∷ [])
IsStaged-append_one k [] r s b h = (tt, tt)
IsStaged-append_one k (x ∷ rs) r s b h = (
  All-append_one (λ y. rank x ≤ rank y) rs r s.0 (omega arith),
  IsStaged-append_one k rs r s.1 b.1 h,
)

UpTo-weaken : {k m : ℕ} {rs : List ReasonCode} → k ≤ m → UpTo k rs → UpTo m rs
UpTo-weaken {rs = rs} h u = record {
  staged = u.staged;
  below = All-weaken _ _ rs (λ r b. omega arith) u.below;
}

UpTo-append_one :
    {k : ℕ} {rs : List ReasonCode} (m : ℕ) (r : ReasonCode)
    → UpTo k rs
    → k ≤ rank r
    → rank r ≤ m
    → UpTo m (rs ++ r ∷ [])
UpTo-append_one {k} {rs} m r u h l = record {
  staged = IsStaged-append_one k rs r u.staged u.below h;
  below = All-append_one _ rs r (UpTo-weaken {k = k} {m = m} (omega arith) u).below l;
}

-- A code appended under a condition.
UpTo-append_if :
    {k : ℕ} {rs : List ReasonCode} (m : ℕ) (b : Bool) (r : ReasonCode)
    → UpTo k rs
    → k ≤ rank r
    → rank r ≤ m
    → UpTo m (if b then rs ++ r ∷ [] else rs)
UpTo-append_if m true r u h l = UpTo-append_one m r u h l
UpTo-append_if m false r u h l = UpTo-weaken (omega arith) u

append_if :
    (b : Bool) (r : ReasonCode) (rs ys : List ReasonCode)
    → rs ++ (if b then r ∷ ys else ys) ≡ (if b then rs ++ r ∷ [] else rs) ++ ys
append_if true r rs ys = sym (append_assoc rs (r ∷ []) ys)
append_if false r rs ys = refl

UpTo-ineffective_codes :
    {k : ℕ} {rs : List ReasonCode} (codes : List ReasonCode)
    → UpTo k rs
    → k ≤ 20
    → UpTo 33 (rs ++ ineffective_codes codes)
unfolding ineffective_codes
UpTo-ineffective_codes {rs = rs} codes u h =
    let first = elem_code ReasonCode.authority_revoked codes in
    let second = elem_code ReasonCode.authority_not_yet_effective codes in
    let third = elem_code ReasonCode.authority_expired codes in
    let u₁ = UpTo-append_if 31 first ReasonCode.authority_revoked u (omega arith) (omega arith) in
    let u₂ =
      UpTo-append_if 32 second ReasonCode.authority_not_yet_effective u₁ (omega arith)
        (omega arith) in
    let u₃ = UpTo-append_if 33 third ReasonCode.authority_expired u₂ (omega arith) (omega arith) in
    rw (append_if first _ rs, append_if second, append_if third, append-nil) u₃

-- The codes that a choice between `fail` and `satisfy` leaves.
module _ {k : ℕ} (m : ℕ) (ev : Evidence) (r : ReasonCode) (c : String) (u : UpTo k ev.reasons)
    (h : k ≤ rank r) (l : rank r ≤ m) where
  UpTo-if : (b : Bool) → UpTo m (if b then fail r c ev else satisfy c ev).reasons
  UpTo-if true = UpTo-append_one m r u h l
  UpTo-if false = UpTo-weaken (omega arith) u

  UpTo-unless : (b : Bool) → UpTo m (if b then satisfy c ev else fail r c ev).reasons
  UpTo-unless true = UpTo-weaken (omega arith) u
  UpTo-unless false = UpTo-append_one m r u h l

UpTo-conclude_authority :
    (b : Bool) (found : Assessment) (ev : Evidence)
    → UpTo 20 ev.reasons
    → UpTo 33 (conclude_authority b found ev).reasons
unfolding conclude_authority
UpTo-conclude_authority true ([], codes) ev u = UpTo-ineffective_codes codes u (omega arith)
UpTo-conclude_authority false ([], codes) ev u =
    UpTo-append_one 33 ReasonCode.no_explicit_authority u (omega arith) (omega arith)
UpTo-conclude_authority b (e ∷ es, codes) ev u = UpTo-weaken (omega arith) u

UpTo-delegation_checks :
    (required : String) (o : Option DelegationContext) (ev : Evidence)
    → UpTo 33 ev.reasons
    → UpTo 41 (delegation_checks required o ev).reasons
unfolding delegation_checks
UpTo-delegation_checks required none ev u = UpTo-weaken (omega arith) u
UpTo-delegation_checks required (some d) ev u =
    UpTo-unless 41 _ ReasonCode.delegation_would_expand "delegation.subset_of_grant"
      (UpTo-if 40 ev ReasonCode.delegation_depth_exceeded "delegation.within_depth" u (omega arith)
        (omega arith) (too_deep d.depth d.max_depth))
      (omega arith) (omega arith) (elem required d.granting_authorities)

module _ {F : Type 0} (host : Host F) (request : DecisionRequest F) where
  UpTo-constrain :
      (c : Constraint F) (ev : Evidence)
      → UpTo 50 ev.reasons
      → UpTo 50 (constrain host request c ev).reasons
  unfolding constrain
  UpTo-constrain (require_classification i p k v) ev u =
      UpTo-unless 50 ev ReasonCode.classification_required i u (omega arith) (omega arith) _
  UpTo-constrain (forbid_classification i p k v) ev u =
      UpTo-if 50 ev ReasonCode.classification_forbidden i u (omega arith) (omega arith) _
  UpTo-constrain (budget_ceiling i p k l) ev u =
      UpTo-if 50 ev ReasonCode.budget_ceiling_exceeded i u (omega arith) (omega arith) _
  UpTo-constrain (require_approval i p a) ev u = u

  UpTo-constrain_all :
      (cs : List (Constraint F)) (ev : Evidence)
      → UpTo 50 ev.reasons
      → UpTo 50 (constrain_all host request cs ev).reasons
  unfolding constrain_all
  UpTo-constrain_all [] ev u = u
  UpTo-constrain_all (c ∷ cs) ev u = UpTo-constrain_all cs _ (UpTo-constrain c ev u)

  UpTo-structural : (ev : Evidence) → UpTo 0 ev.reasons → UpTo 10 (structural request ev).reasons
  unfolding structural
  UpTo-structural ev u =
      UpTo-if 10 ev ReasonCode.expected_revision_stale "structural.expected_revision_matches" u
        (omega arith) (omega arith) _

  UpTo-principal : (ev : Evidence) → UpTo 10 ev.reasons → UpTo 20 (principal request ev).reasons
  unfolding principal
  UpTo-principal ev u =
      UpTo-unless 20 ev ReasonCode.principal_inactive "principal.active" u (omega arith)
        (omega arith) _

  -- The stages before the approval leave only codes of gates.
  pub UpTo-gathered : (found : Assessment) → UpTo 50 (gathered host request found).reasons
  unfolding delegation
  UpTo-gathered found = UpTo-constrain_all request.constraints _ (
      UpTo-weaken (omega arith) (
        UpTo-delegation_checks request.required_authority request.delegation _ (
          UpTo-conclude_authority _ found _
            (UpTo-principal _ (UpTo-structural no_evidence (record { staged = tt; below = tt }))))))

  UpTo-approval : (ev : Evidence) → UpTo 50 ev.reasons → UpTo 60 (approval ev).reasons
  unfolding approval
  UpTo-approval ev u = elim (Bool-cases (is_nil ev.approvals)) [
    | inl e ↦ rw e (UpTo-weaken (omega arith) u)
    | inr e ↦ rw e (UpTo-append_one 60 ReasonCode.approval_triggered u (omega arith) (omega arith))
  ]

  IsStaged-final_reasons : (ev : Evidence) → UpTo 60 ev.reasons → IsStaged (final_reasons ev)
  unfolding final_reasons
  IsStaged-final_reasons ev u = elim (Bool-cases (is_nil ev.failed && is_nil ev.approvals)) [
    | inl e ↦ rw e (UpTo-append_one 70 ReasonCode.permitted u (omega arith) (omega arith)).staged
    | inr e ↦ rw e u.staged
  ]

  -- The reason codes of every Decision are in the order of the stages, and a request with several
  -- ineffective candidates has their codes in the order revoked, not yet effective, expired.
  pub reason_codes-IsStaged :
      {d : Decision} → evaluate host request ≡ ok d → IsStaged d.reason_codes
  unfolding conclude
  reason_codes-IsStaged h =
      let (found, e, e') = evaluate-eq-ok host request h in
      rw e' (IsStaged-final_reasons _ (UpTo-approval _ (UpTo-gathered found)))
