-- ===== src/Kernel/Authority.antt =====
-- Stage 3 of `evaluate`, and `_authority_is_effective`.
pub mod Window
pub mod Assess
use connect_governance.Prelude.{
  ℕ, String, Bool, true, false, not, ◌&&◌, Option, none, some, List, [], ◌∷◌, ◌++◌, map, ltb, leb,
  ◌==◌, if◌then◌else◌, elem, filter, is_nil, Result, ok, ◌>>=◌,
}
use connect_governance.Kernel.Types.{ReasonCode, AuthorityEvidence, DecisionRequest}
use connect_governance.Kernel.Timestamp.{parse_rfc3339}
use connect_governance.Kernel.Evidence.{Host, Evidence, elem_code}

-- The lists `effective` and `ineffective_reasons`.
abbrev pub Assessment : Type 0
Assessment = List AuthorityEvidence × List ReasonCode

-- The body of the loop over the candidates.
unfoldable pub note_candidate :
    AuthorityEvidence → Bool × Option ReasonCode → Assessment → Assessment
note_candidate ev (true, why) (effective, codes) = (effective ++ ev ∷ [], codes)
note_candidate ev (false, none) (effective, codes) = (effective, codes)
note_candidate ev (false, some why) (effective, codes) =
    (effective, if elem_code why codes then codes else codes ++ why ∷ [])

-- The codes in their fixed order, each only if some candidate was ineffective for it.
unfoldable pub ineffective_codes : List ReasonCode → List ReasonCode
unfolding elem_code
ineffective_codes codes =
    filter (λ code. elem_code code codes)
      (ReasonCode.authority_revoked ∷ ReasonCode.authority_not_yet_effective
        ∷ ReasonCode.authority_expired ∷ [])

unfoldable pub conclude_authority : Bool → Assessment → Evidence → Evidence
conclude_authority any_candidate ([], codes) ev = record ev {
  failed = ev.failed ++ "authority.explicit_and_effective" ∷ [];
  reasons =
      ev.reasons
      ++ (if any_candidate then ineffective_codes codes else ReasonCode.no_explicit_authority ∷ []);
}
conclude_authority any_candidate (e ∷ effective, codes) ev = record ev {
  satisfied = ev.satisfied ++ "authority.explicit_and_effective" ∷ [];
  resolved = ev.resolved ++ map (λ a. a.relationship_id) (e ∷ effective);
}

module _ {F : Type 0} where
  abbrev pub is_candidate : DecisionRequest F → AuthorityEvidence → Bool
  is_candidate request ev =
      ev.principal_id == request.transition.proposed_by_principal_id
      && elem request.required_authority ev.granted_authorities

  abbrev pub candidates : DecisionRequest F → List AuthorityEvidence
  candidates request = filter (is_candidate request) request.authority_evidence

module _ {F : Type 0} (host : Host F) where
  -- `value is not None and test(parse_rfc3339(value))`
  unfoldable pub bound_test : Option String → (ℕ → Bool) → Result Bool
  bound_test none test = ok false
  bound_test (some value) test = do t ← parse_rfc3339 host.fromisoformat value; ok (test t)

  unfoldable pub authority_is_effective :
      AuthorityEvidence → String → Result (Bool × Option ReasonCode)
  authority_is_effective ev at = do
    t ← parse_rfc3339 host.fromisoformat at
    revoked ← bound_test ev.revoked_at (λ r. leb r t)
    if revoked then ok (false, some ReasonCode.authority_revoked) else do
      early ← bound_test ev.effective_from (λ from. ltb t from)
      if early then ok (false, some ReasonCode.authority_not_yet_effective) else do
        late ← bound_test ev.effective_until (λ until. leb until t)
        if late then ok (false, some ReasonCode.authority_expired) else ok (true, none)

  unfoldable pub assess : List AuthorityEvidence → String → Assessment → Result Assessment
  assess [] at found = ok found
  assess (ev ∷ rest) at found = do
    verdict ← authority_is_effective ev at
    assess rest at (note_candidate ev verdict found)

  unfoldable pub authority : DecisionRequest F → Evidence → Result Evidence
  authority request ev = do
    found ← assess (candidates request) request.evaluation_time ([], [])
    ok (conclude_authority (not (is_nil (candidates request))) found ev)
