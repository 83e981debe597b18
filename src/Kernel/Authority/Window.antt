-- ===== src/Kernel/Authority/Window.antt =====
-- When a piece of authority evidence is in force: the half-open window, and the revocation.
use connect_governance.Prelude.{
  ℕ, ◌≤◌, ◌<◌, String, ◌≡◌, refl, ◌↔◌, Bool, true, false, Option, none, some, arith, ltb, leb, ok,
  Result, >>=-eq-ok, ◌⊎◌, inl, inr,
}
use connect_governance.Kernel.Types.{ReasonCode, AuthorityEvidence}
use connect_governance.Kernel.Timestamp.{parse_rfc3339}
use connect_governance.Kernel.Evidence.{Host}
use connect_governance.Kernel.Authority.{bound_test, authority_is_effective}

module _ {F : Type 0} (host : Host F) where
  -- The text denotes an instant that satisfies `P`.
  abbrev pub Denotes : (ℕ → Type 0) → String → Type 0
  Denotes P value = (r : ℕ) × (parse_rfc3339 host.fromisoformat value ≡ ok r) × P r

  -- A bound that is absent holds; one that is given denotes an instant that satisfies `P`.
  abbrev pub Bounded : (ℕ → Type 0) → Option String → Type 0
  Bounded P none = Unit
  Bounded P (some value) = Denotes P value

  -- effective_from <= t < effective_until, and no revocation at or before t.
  abbrev pub InForce : ℕ → AuthorityEvidence → Type 0
  InForce t ev =
      Bounded (λ r. t < r) ev.revoked_at
      × Bounded (λ from. from ≤ t) ev.effective_from
      × Bounded (λ until. t < until) ev.effective_until

  bound_test-false :
      (P : ℕ → Type 0) (test : ℕ → Bool) (o : Option String)
      → ((r : ℕ) → test r ≡ false → P r)
      → bound_test host o test ≡ ok false
      → Bounded P o
  unfolding bound_test
  bound_test-false P test none sound h = tt
  bound_test-false P test (some value) sound h =
      let (r, e, e') =
        >>=-eq-ok (parse_rfc3339 host.fromisoformat value) (λ (r : ℕ). ok (test r)) h in
      (r, e, sound r cc)

  bound_test-of_Bounded :
      (P : ℕ → Type 0) (test : ℕ → Bool) (o : Option String)
      → ((r : ℕ) → P r → test r ≡ false)
      → Bounded P o
      → bound_test host o test ≡ ok false
  unfolding bound_test
  bound_test-of_Bounded P test none complete b = refl
  bound_test-of_Bounded P test (some value) complete (r, e, p) = rw e (rw (complete r p))

  -- A test of a bound that returned `false`, exactly if the bound holds.
  pub bound_test_iff :
      (P : ℕ → Type 0) (test : ℕ → Bool) (o : Option String)
      → ((r : ℕ) → (test r ≡ false) ↔ P r)
      → {b : Bool} → bound_test host o test ≡ ok b
      → (b ≡ false) ↔ Bounded P o
  bound_test_iff P test o decides {b} e = (
    λ h. bound_test-false P test o (λ r. (decides r).0) (rw (← h) e),
    λ holds. returned (rw e at (bound_test-of_Bounded P test o (λ r. (decides r).1) holds)),
  )
    where
      returned : ◌≡◌ {A = Result Bool} (ok b) (ok false) → b ≡ false
      returned h = cc

  -- An effective verdict means that none of the three tests rejects.
  passes_all_tests :
      (ev : AuthorityEvidence) (at : String) (t : ℕ)
      → parse_rfc3339 host.fromisoformat at ≡ ok t
      → authority_is_effective host ev at ≡ ok (true, none)
      → (bound_test host ev.revoked_at (λ r. leb r t) ≡ ok false)
        × (bound_test host ev.effective_from (λ from. ltb t from) ≡ ok false)
        × (bound_test host ev.effective_until (λ until. leb until t) ≡ ok false)
  unfolding authority_is_effective
  passes_all_tests ev at t parsed h = ground arith

  -- At the instant `t` that `at` denotes, the evidence is effective exactly when it is in force:
  -- `effective_from <= t`, `t < effective_until` and `t < revoked_at`, for each bound that is given.
  pub authority_is_effective-iff-InForce :
      (ev : AuthorityEvidence) (at : String) (t : ℕ)
      → parse_rfc3339 host.fromisoformat at ≡ ok t
      → (authority_is_effective host ev at ≡ ok (true, none)) ↔ InForce t ev
  unfolding authority_is_effective
  authority_is_effective-iff-InForce ev at t parsed = (to, from)
    where
      to : authority_is_effective host ev at ≡ ok (true, none) → InForce t ev
      to h =
          let (a, b, c) = passes_all_tests ev at t parsed h in
          (
            bound_test-false _ _ ev.revoked_at (λ r e. ground arith) a,
            bound_test-false _ _ ev.effective_from (λ r e. ground arith) b,
            bound_test-false _ _ ev.effective_until (λ r e. ground arith) c,
          )

      from : InForce t ev → authority_is_effective host ev at ≡ ok (true, none)
      from (a, b, c) = rw (
        parsed,
        bound_test-of_Bounded _ (λ r. leb r t) ev.revoked_at (λ r p. ground arith) a,
        bound_test-of_Bounded _ (λ from. ltb t from) ev.effective_from (λ r p. ground arith) b,
        bound_test-of_Bounded _ (λ until. leb until t) ev.effective_until (λ r p. ground arith) c,
      )

  -- A bound that is given, and denotes an instant that satisfies `P`.
  abbrev pub Reached : (ℕ → Type 0) → Option String → Type 0
  Reached P none = ⊥
  Reached P (some value) = Denotes P value

  -- What each verdict says of the evidence at the instant `t`.
  abbrev pub Explains : ℕ → AuthorityEvidence → Bool × Option ReasonCode → Type 0
  Explains t ev (true, none) = InForce t ev
  Explains t ev (false, some ReasonCode.authority_revoked) = Reached (λ r. r ≤ t) ev.revoked_at
  Explains t ev (false, some ReasonCode.authority_not_yet_effective) =
      Bounded (λ r. t < r) ev.revoked_at × Reached (λ from. t < from) ev.effective_from
  Explains t ev (false, some ReasonCode.authority_expired) =
      Bounded (λ r. t < r) ev.revoked_at
      × Bounded (λ from. from ≤ t) ev.effective_from
      × Reached (λ until. until ≤ t) ev.effective_until
  Explains t ev _ = ⊥

  bound_test-true :
      (P : ℕ → Type 0) (test : ℕ → Bool) (o : Option String)
      → ((r : ℕ) → test r ≡ true → P r)
      → bound_test host o test ≡ ok true
      → Reached P o
  unfolding bound_test
  bound_test-true P test none sound h = cc
  bound_test-true P test (some value) sound h =
      let (r, e, e') =
        >>=-eq-ok (parse_rfc3339 host.fromisoformat value) (λ (r : ℕ). ok (test r)) h in
      (r, e, sound r cc)

  module _ (ev : AuthorityEvidence) (at : String) (t : ℕ)
      (parsed : parse_rfc3339 host.fromisoformat at ≡ ok t) where
    -- The three tests in order: what the verdict is, whichever they return.
    verdict_cases :
        (v : Bool × Option ReasonCode)
        → authority_is_effective host ev at ≡ ok v
        → (bound_test host ev.revoked_at (λ r. leb r t) ≡ ok true)
            × (v ≡ (false, some ReasonCode.authority_revoked))
          ⊎ (bound_test host ev.revoked_at (λ r. leb r t) ≡ ok false)
            × (bound_test host ev.effective_from (λ from. ltb t from) ≡ ok true)
            × (v ≡ (false, some ReasonCode.authority_not_yet_effective))
          ⊎ (bound_test host ev.revoked_at (λ r. leb r t) ≡ ok false)
            × (bound_test host ev.effective_from (λ from. ltb t from) ≡ ok false)
            × (bound_test host ev.effective_until (λ until. leb until t) ≡ ok true)
            × (v ≡ (false, some ReasonCode.authority_expired))
          ⊎ (bound_test host ev.revoked_at (λ r. leb r t) ≡ ok false)
            × (bound_test host ev.effective_from (λ from. ltb t from) ≡ ok false)
            × (bound_test host ev.effective_until (λ until. leb until t) ≡ ok false)
            × (v ≡ (true, none))
    unfolding authority_is_effective
    verdict_cases v h = ground arith

    -- Whatever the verdict, its reason is true of the evidence, and the reasons before it in the
    -- order revoked, not yet effective, expired are not: the four cases are all that there are.
    pub authority_is_effective-Explains :
        (v : Bool × Option ReasonCode) → authority_is_effective host ev at ≡ ok v → Explains t ev v
    authority_is_effective-Explains v h =
        let not_revoked : bound_test host ev.revoked_at (λ r. leb r t) ≡ ok false
            → Bounded (λ r. t < r) ev.revoked_at =
          bound_test-false _ (λ r. leb r t) ev.revoked_at (λ r e. ground arith) in
        let started : bound_test host ev.effective_from (λ from. ltb t from) ≡ ok false
            → Bounded (λ from. from ≤ t) ev.effective_from =
          bound_test-false _ (λ from. ltb t from) ev.effective_from (λ r e. ground arith) in
        elim (verdict_cases v h) [
          | inl (a, e) ↦ rw e (bound_test-true _ _ ev.revoked_at (λ r e. ground arith) a)
          | inr (inl (a, b, e)) ↦
              rw e (not_revoked a, bound_test-true _ _ ev.effective_from (λ r e. ground arith) b)
          | inr (inr (inl (a, b, c, e))) ↦ rw e (
            not_revoked a,
            started b,
            bound_test-true _ _ ev.effective_until (λ r e. ground arith) c,
          )
          | inr (inr (inr (a, b, c, e))) ↦ rw e (
            not_revoked a,
            started b,
            bound_test-false _ _ ev.effective_until (λ r e. ground arith) c,
          )
        ]
