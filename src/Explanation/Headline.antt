-- ===== src/Explanation/Headline.antt =====
-- What the operator is told of a Decision of the Kernel: the earliest problem, and what to do on it.
use Prim.Native.Nat.{◌/◌}
use connect_governance.Prelude.{
  ℕ, ◌≤◌, String, ◌≡◌, refl, sym, ◌∙◌, subst, ◌⊎◌, true, Option, none, some, List, [], ◌∷◌, arith,
  All, All-weaken, Any, eq_refl, ok, Bool-cases, inl, inr, if◌then◌else◌,
}
use connect_governance.Kernel.Types.{Outcome, ReasonCode, reason_value, DecisionRequest, Decision}
use connect_governance.Kernel.Evidence.{Host, elem_code}
use connect_governance.Kernel.Evaluate.{evaluate}
use connect_governance.Kernel.Evaluate.Stages.{rank, IsStaged, reason_codes-IsStaged}
use connect_governance.Kernel.Evaluate.Reasons.{reason_codes-evaluate}
use connect_governance.Explanation.Prose.{reason_prose, remedy}
use connect_governance.Explanation.Views.{Format}
use connect_governance.Explanation.{headline, reason_of, denial_action, next_action}

-- The stage that emits the code, from 1 on.
abbrev pub stage_number : ReasonCode → ℕ
stage_number r = rank r / 10

-- `r` is among the codes, and none is of an earlier stage.
pub record IsEarliest (r : ReasonCode) (codes : List ReasonCode) : Type 0 where
  pub given : elem_code r codes ≡ true
  pub first : All (λ s. stage_number r ≤ stage_number s) codes

headline_gate : (r : ReasonCode) (rs : List ReasonCode) → rank r ≤ 60 → headline (r ∷ rs) ≡ some r
headline_gate ReasonCode.permitted rs h = absurd (omega (arith, h))
headline_gate _ rs h = refl

elem_code_head : (r : ReasonCode) (rs : List ReasonCode) → elem_code r (r ∷ rs) ≡ true
unfolding elem_code reason_value
elem_code_head r rs = rw (eq_refl (reason_value r)) refl

-- The codes that `_next_action` has a sentence for, in the order in which it asks for them.
abbrev asked : List ReasonCode
asked =
    ReasonCode.expected_revision_stale ∷ ReasonCode.principal_inactive
    ∷ ReasonCode.authority_expired ∷ ReasonCode.authority_revoked
    ∷ ReasonCode.authority_not_yet_effective ∷ ReasonCode.no_explicit_authority
    ∷ ReasonCode.delegation_would_expand ∷ ReasonCode.delegation_depth_exceeded
    ∷ ReasonCode.budget_ceiling_exceeded ∷ ReasonCode.classification_required
    ∷ ReasonCode.classification_forbidden ∷ []

-- The first of them that is given.
abbrev first_asked : List ReasonCode → List ReasonCode → Option ReasonCode
first_asked [] codes = none
first_asked (q ∷ qs) codes = if elem_code q codes then some q else first_asked qs codes

denial_action_lem :
    (required who : String) (codes : List ReasonCode)
    → denial_action required who codes ≡ elim (first_asked asked codes) [
      | none ↦ "Review the proof view for the failed conditions."
      | some r ↦ remedy required who r
    ]
unfolding denial_action remedy
denial_action_lem required who codes = ground arith

-- The codes stand in the order of their stages.
abbrev IsOrdered : List ReasonCode → Type 0
IsOrdered [] = Unit
IsOrdered (q ∷ qs) = All (λ s. stage_number q ≤ stage_number s) qs × IsOrdered qs

asked-IsOrdered : IsOrdered asked
asked-IsOrdered = ground arith

at_code :
    (P : ReasonCode → Type 0) (qs : List ReasonCode) (h : ReasonCode)
    → All P qs
    → Any (λ q. h ≡ q) qs
    → P h
at_code P [] h a w = absurd w
at_code P (q ∷ qs) h a (inl e) = subst P (sym e) a.0
at_code P (q ∷ qs) h a (inr w) = at_code P qs h a.1 w

-- If some code of the list is given, the first that is given stands no later.
first_asked-earliest :
    (qs codes : List ReasonCode) (h : ReasonCode)
    → IsOrdered qs
    → Any (λ q. h ≡ q) qs
    → elem_code h codes ≡ true
    → (r : ReasonCode) × (first_asked qs codes ≡ some r)
      × (elem_code r codes ≡ true)
      × (stage_number r ≤ stage_number h)
first_asked-earliest [] codes h o w g = absurd w
first_asked-earliest (q ∷ qs) codes h o w g = elim (Bool-cases (elem_code q codes)) [
  | inl e ↦ (
    q,
    rw e refl,
    e,
    at_code (λ s. stage_number q ≤ stage_number s) (q ∷ qs) h (omega arith, o.0) w,
  )
  | inr e ↦
      let later : Any (λ q. h ≡ q) qs = elim w [ inl same ↦ cc (rw same at g, e) | inr v ↦ v ] in
      let (r, found, given, k) = first_asked-earliest qs codes h o.1 later g in
      (r, rw e found, given, k)
]

-- Every code of a gate is asked for.
gate_is_asked : (h : ReasonCode) → rank h ≤ 50 → Any (λ q. h ≡ q) asked
gate_is_asked ReasonCode.expected_revision_stale l = inl refl
gate_is_asked ReasonCode.principal_inactive l = inr (inl refl)
gate_is_asked ReasonCode.authority_expired l = inr (inr (inl refl))
gate_is_asked ReasonCode.authority_revoked l = inr (inr (inr (inl refl)))
gate_is_asked ReasonCode.authority_not_yet_effective l = inr (inr (inr (inr (inl refl))))
gate_is_asked ReasonCode.no_explicit_authority l = inr (inr (inr (inr (inr (inl refl)))))
gate_is_asked ReasonCode.delegation_would_expand l = inr (inr (inr (inr (inr (inr (inl refl))))))
gate_is_asked ReasonCode.delegation_depth_exceeded l =
    inr (inr (inr (inr (inr (inr (inr (inl refl)))))))
gate_is_asked ReasonCode.budget_ceiling_exceeded l =
    inr (inr (inr (inr (inr (inr (inr (inr (inl refl))))))))
gate_is_asked ReasonCode.classification_required l =
    inr (inr (inr (inr (inr (inr (inr (inr (inr (inl refl)))))))))
gate_is_asked ReasonCode.classification_forbidden l =
    inr (inr (inr (inr (inr (inr (inr (inr (inr (inr (inl refl))))))))))
gate_is_asked ReasonCode.approval_triggered l = absurd (omega (arith, l))
gate_is_asked ReasonCode.permitted l = absurd (omega (arith, l))

-- The reason that is shown: permission, or the sentence of the first and earliest code.
abbrev pub ShownReason : Decision → Type 0
ShownReason d =
    ((d.outcome ≡ Outcome.allowed)
      × (reason_of d
          ≡ "Permitted: the requester holds the required permission and no limit was exceeded."))
    ⊎ ((r : ReasonCode) × (rs : List ReasonCode) × (d.reason_codes ≡ r ∷ rs)
        × (reason_of d ≡ reason_prose r)
        × (rank r ≤ 60)
        × All (λ s. rank r ≤ rank s) rs)

-- The text is the sentence for a code of the earliest stage, which is not that of the approvals.
abbrev pub About : String → String → List ReasonCode → String → Type 0
About required who codes text =
    (r : ReasonCode) × (text ≡ remedy required who r) × IsEarliest r codes × (stage_number r ≤ 5)

module _ {F : Type 0} (host : Host F) (format : Format F) (request : DecisionRequest F) where
  of_outcome :
      (d : Decision) → evaluate host request ≡ ok d → (o : Outcome) → d.outcome ≡ o → ShownReason d
  unfolding reason_of
  of_outcome d h Outcome.allowed e = inl (e, rw e refl)
  of_outcome d h Outcome.denied e =
      let (r, rs, codes, l) = (reason_codes-evaluate host request h).2.0 e in
      let staged : IsStaged (r ∷ rs) =
        subst (λ cs. IsStaged cs) codes (reason_codes-IsStaged host request h) in
      inr (
        r,
        rs,
        codes,
        rw (e, codes, headline_gate r rs (omega (arith, l))) refl,
        omega (arith, l),
        staged.0,
      )
  of_outcome d h Outcome.approval_required e =
      let codes = (reason_codes-evaluate host request h).1.0 e in
      inr (ReasonCode.approval_triggered, [], codes, rw (e, codes) refl, omega arith, tt)

  -- What the operator reads of a Decision that `evaluate` made. An allowed one is told to be
  -- permitted. For any other the reason is the sentence of its first code, which is never
  -- `permitted` and before which, in the normative order, no other code of it stands.
  pub reason_of-evaluate : {d : Decision} → evaluate host request ≡ ok d → ShownReason d
  reason_of-evaluate {d} h = of_outcome d h d.outcome refl

  -- If `evaluate` denied, the next action is the sentence for a code of the Decision whose stage is
  -- the earliest of all its codes' stages, and one of the five stages of gates.
  pub next_action-evaluate :
      {d : Decision}
      → evaluate host request ≡ ok d
      → d.outcome ≡ Outcome.denied
      → About request.required_authority request.transition.proposed_by_principal_id d.reason_codes
          (next_action host format request d)
  unfolding next_action
  next_action-evaluate {d} h denied =
      let (r, rs, codes, l) = (reason_codes-evaluate host request h).2.0 denied in
      let staged : IsStaged (r ∷ rs) =
        subst (λ cs. IsStaged cs) codes (reason_codes-IsStaged host request h) in
      let (q, found, given, first) =
        first_asked-earliest asked (r ∷ rs) r asked-IsOrdered (gate_is_asked r l)
          (elem_code_head r rs) in
      let required = request.required_authority in
      let who = request.transition.proposed_by_principal_id in
      rw (denied, codes)
        (
          q,
          denial_action_lem required who (r ∷ rs) ∙ rw found refl,
          record {
            given = given;
            first =
                All-weaken (λ s. rank r ≤ rank s) (λ s. stage_number q ≤ stage_number s) (r ∷ rs)
                  (λ s b. omega (arith, b, first)) (omega arith, staged.0);
          },
          omega (arith, first, l),
        )
