-- ===== src/Kernel/Evaluate/Explained.antt =====
-- A reason code is given exactly when a condition fails.
use connect_governance.Prelude.{
  ℕ, String, Result, if◌then◌else◌, ◌≡◌, refl, sym, ◌∙◌, Bool, true, false, not, ◌||◌, Option, none,
  some, List, [], ◌∷◌, ◌++◌, arith, is_nil, is_nil-append, ok, inl, inr, Result-cases, elem,
}
use connect_governance.Kernel.Types.{
  ReasonCode, reason_value, AuthorityEvidence, DelegationContext, Constraint,
  require_classification, forbid_classification, budget_ceiling, require_approval, DecisionRequest,
}
use connect_governance.Kernel.Timestamp.{parse_rfc3339}
use connect_governance.Kernel.Evidence.{Host, Evidence, satisfy, fail}
use connect_governance.Kernel.Authority.{
  Assessment, candidates, assess, authority_is_effective, ineffective_codes, conclude_authority,
}
use connect_governance.Kernel.Authority.Window.{Explains, authority_is_effective-Explains}
use connect_governance.Kernel.Authority.Assess.{
  accepts, rejects_for, verdict, assess-effective, assess-codes, assess-verdicts,
}
use connect_governance.Kernel.Evaluate.{
  structural, principal, revision_differs, delegation_checks, delegation, constrain, constrain_all,
  too_deep,
}
use connect_governance.Kernel.Evaluate.Gates.{gathered}

-- There are reasons exactly where there are failures.
pub record IsExplained (ev : Evidence) : Type 0 where
  pub same : is_nil ev.reasons ≡ is_nil ev.failed

is_nil-append_one {ℓ} : {A : Type ℓ} (xs : List A) (x : A) → is_nil (xs ++ x ∷ []) ≡ false
is_nil-append_one [] x = refl
is_nil-append_one (y ∷ xs) x = refl

IsExplained-fail : (r : ReasonCode) (c : String) (ev : Evidence) → IsExplained (fail r c ev)
IsExplained-fail r c ev = record {
  same = is_nil-append_one ev.reasons r ∙ sym (is_nil-append_one ev.failed c);
}

IsExplained-if :
    {ev : Evidence} (b : Bool) (r : ReasonCode) (c : String)
    → IsExplained ev
    → IsExplained (if b then fail r c ev else satisfy c ev)
IsExplained-if true r c x = IsExplained-fail r c _
IsExplained-if false r c x = record { same = x.same }

IsExplained-unless :
    {ev : Evidence} (b : Bool) (r : ReasonCode) (c : String)
    → IsExplained ev
    → IsExplained (if b then satisfy c ev else fail r c ev)
IsExplained-unless true r c x = record { same = x.same }
IsExplained-unless false r c x = IsExplained-fail r c _

IsExplained-delegation_checks :
    {ev : Evidence} (required : String) (o : Option DelegationContext)
    → IsExplained ev
    → IsExplained (delegation_checks required o ev)
unfolding delegation_checks
IsExplained-delegation_checks required none x = x
IsExplained-delegation_checks required (some d) x =
    IsExplained-unless (elem required d.granting_authorities) _ _
      (IsExplained-if (too_deep d.depth d.max_depth) _ _ x)

-- A rejection is for one of the three codes that are reported.
abbrev rejected_for_some : Result (Bool × Option ReasonCode) → Bool
rejected_for_some r =
    rejects_for ReasonCode.authority_revoked r
    || rejects_for ReasonCode.authority_not_yet_effective r
    || rejects_for ReasonCode.authority_expired r

module _ {F : Type 0} (host : Host F) where
  rejection_code :
      (t : ℕ) (ev : AuthorityEvidence) (v : Bool × Option ReasonCode)
      → Explains host t ev v
      → accepts (ok v) ≡ false
      → rejected_for_some (ok v) ≡ true
  unfolding reason_value
  rejection_code t ev (true, none) x a = cc
  rejection_code t ev (true, some why) x a = cc
  rejection_code t ev (false, none) x a = absurd x
  rejection_code t ev (false, some ReasonCode.authority_revoked) x a = refl
  rejection_code t ev (false, some ReasonCode.authority_not_yet_effective) x a = refl
  rejection_code t ev (false, some ReasonCode.authority_expired) x a = refl
  rejection_code t ev (false, some _) x a = absurd x

  verdict_parses :
      (ev : AuthorityEvidence) (at : String) {v : Bool × Option ReasonCode}
      → verdict host at ev ≡ ok v
      → (t : ℕ) × (parse_rfc3339 host.fromisoformat at ≡ ok t)
  unfolding authority_is_effective
  verdict_parses ev at h = elim (Result-cases (parse_rfc3339 host.fromisoformat at)) [
    | inl w ↦ w
    | inr (e, p) ↦ cc (rw p at h)
  ]

  verdict_code :
      (at : String) (ev : AuthorityEvidence) {v : Bool × Option ReasonCode}
      → verdict host at ev ≡ ok v
      → accepts (verdict host at ev) ≡ false
      → rejected_for_some (verdict host at ev) ≡ true
  verdict_code at ev {v} h a =
      let (t, p) = verdict_parses ev at h in
      rw h (rejection_code t ev v (authority_is_effective-Explains host ev at t p v h) (rw h at a))

  -- Candidates of which none is effective leave a code to report.
  codes_of_ineffective :
      (at : String) (c : AuthorityEvidence) (cs : List AuthorityEvidence) (codes : List ReasonCode)
      → assess host (c ∷ cs) at ([], []) ≡ ok ([], codes)
      → is_nil (ineffective_codes codes) ≡ false
  unfolding ineffective_codes
  codes_of_ineffective at c cs codes h =
      let ((v, e), _) = assess-verdicts host at (c ∷ cs) ([], []) h in
      let none_effective = assess-effective host at (c ∷ cs) ([], []) h in
      ground (
        arith,
        none_effective,
        verdict_code at c e,
        assess-codes host at ReasonCode.authority_revoked (c ∷ cs) ([], []) h,
        assess-codes host at ReasonCode.authority_not_yet_effective (c ∷ cs) ([], []) h,
        assess-codes host at ReasonCode.authority_expired (c ∷ cs) ([], []) h,
      )

  IsExplained-conclude_authority :
      (at : String) (cs : List AuthorityEvidence) (found : Assessment) {ev : Evidence}
      → assess host cs at ([], []) ≡ ok found
      → IsExplained ev
      → IsExplained (conclude_authority (not (is_nil cs)) found ev)
  unfolding conclude_authority
  IsExplained-conclude_authority at [] ([], codes) {ev} h x = IsExplained-fail _ _ ev
  IsExplained-conclude_authority at (c ∷ cs) ([], codes) {ev} h x = record {
    same =
        is_nil-append ev.reasons (ineffective_codes codes)
        ∙ rw (codes_of_ineffective at c cs codes h, is_nil-append_one) (ground arith);
  }
  IsExplained-conclude_authority at cs (e ∷ es, codes) h x = record { same = x.same }

module _ {F : Type 0} (host : Host F) (request : DecisionRequest F) where
  IsExplained-constrain :
      (c : Constraint F) {ev : Evidence}
      → IsExplained ev
      → IsExplained (constrain host request c ev)
  unfolding constrain
  IsExplained-constrain (require_classification i p k v) x = IsExplained-unless _ _ i x
  IsExplained-constrain (forbid_classification i p k v) x = IsExplained-if _ _ i x
  IsExplained-constrain (budget_ceiling i p k l) x = IsExplained-if _ _ i x
  IsExplained-constrain (require_approval i p a) x = record { same = x.same }

  IsExplained-constrain_all :
      (cs : List (Constraint F)) {ev : Evidence}
      → IsExplained ev
      → IsExplained (constrain_all host request cs ev)
  unfolding constrain_all
  IsExplained-constrain_all [] x = x
  IsExplained-constrain_all (c ∷ cs) x = IsExplained-constrain_all cs (IsExplained-constrain c x)

  IsExplained-structural : {ev : Evidence} → IsExplained ev → IsExplained (structural request ev)
  unfolding structural
  IsExplained-structural x =
      IsExplained-if
        (revision_differs request.transition.expected_state_revision request.current_state_revision)
        _ _ x

  IsExplained-principal : {ev : Evidence} → IsExplained ev → IsExplained (principal request ev)
  unfolding principal
  IsExplained-principal x = IsExplained-unless request.principal_active _ _ x

  pub IsExplained-gathered :
      {found : Assessment}
      → assess host (candidates request) request.evaluation_time ([], []) ≡ ok found
      → IsExplained (gathered host request found)
  unfolding delegation
  IsExplained-gathered {found} h = IsExplained-constrain_all request.constraints (
      IsExplained-delegation_checks request.required_authority request.delegation (
        IsExplained-conclude_authority host request.evaluation_time (candidates request) found h
          (IsExplained-principal (IsExplained-structural (record { same = refl })))))
