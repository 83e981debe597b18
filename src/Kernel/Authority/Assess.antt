-- ===== src/Kernel/Authority/Assess.antt =====
-- What the loop over the candidates collects: the effective ones in order, and why others are not.
use connect_governance.Prelude.{
  String, ◌≡◌, refl, ◌∙◌, Bool, true, false, ◌||◌, Option, none, some, List, [], ◌∷◌, ◌++◌, map,
  arith, ◌==◌, append-nil, append_assoc, elem, any, filter, All, if◌then◌else◌, inl, inr, Result,
  ok, err, Result-cases, eq_iff,
}
use connect_governance.Kernel.Types.{ReasonCode, reason_value, AuthorityEvidence}
use connect_governance.Kernel.Evidence.{Host, elem_code}
use connect_governance.Kernel.Authority.{Assessment, note_candidate, authority_is_effective, assess}

abbrev pub accepts : Result (Bool × Option ReasonCode) → Bool
accepts (ok (true, why)) = true
accepts (ok (false, why)) = false
accepts (err e) = false

abbrev pub rejects_for : ReasonCode → Result (Bool × Option ReasonCode) → Bool
rejects_for code (ok (true, why)) = false
rejects_for code (ok (false, none)) = false
rejects_for code (ok (false, some why)) = reason_value code == reason_value why
rejects_for code (err e) = false

note_candidate-effective :
    (ev : AuthorityEvidence) (v : Bool × Option ReasonCode) (found : Assessment)
    (xs : List AuthorityEvidence)
    → (note_candidate ev v found).0 ++ xs ≡ found.0 ++ (if accepts (ok v) then ev ∷ xs else xs)
unfolding note_candidate
note_candidate-effective ev (true, why) (effective, codes) xs = append_assoc effective (ev ∷ []) xs
note_candidate-effective ev (false, none) (effective, codes) xs = refl
note_candidate-effective ev (false, some why) (effective, codes) xs = refl

elem-append_one : (x y : String) (xs : List String) → elem x (xs ++ y ∷ []) ≡ (elem x xs || x == y)
elem-append_one x y [] = ground arith
elem-append_one x y (z ∷ xs) = ground (arith, elem-append_one x y xs)

map-append_one :
    (xs : List ReasonCode) (r : ReasonCode)
    → map reason_value (xs ++ r ∷ []) ≡ map reason_value xs ++ reason_value r ∷ []
map-append_one [] r = refl
map-append_one (x ∷ xs) r = rw (map-append_one xs r)

elem_code-append_one :
    (c why : ReasonCode) (codes : List ReasonCode)
    → elem_code c (codes ++ why ∷ []) ≡ (elem_code c codes || reason_value c == reason_value why)
unfolding elem_code
elem_code-append_one c why codes =
    rw (map-append_one codes why) (elem-append_one (reason_value c) (reason_value why) _)

-- Codes of one value stand in the same lists.
elem_code_congr :
    (c why : ReasonCode) (codes : List ReasonCode)
    → (reason_value c == reason_value why) ≡ true
    → elem_code c codes ≡ elem_code why codes
unfolding elem_code
elem_code_congr c why codes h = rw ((eq_iff _ _).0 h)

-- A code that is there already is not appended, and that makes no difference to membership.
elem_code-note :
    (c why : ReasonCode) (codes : List ReasonCode)
    → elem_code c (if elem_code why codes then codes else codes ++ why ∷ [])
      ≡ (elem_code c codes || reason_value c == reason_value why)
elem_code-note c why codes =
    ground (arith, elem_code-append_one c why codes, elem_code_congr c why codes)

note_candidate-codes :
    (c : ReasonCode) (ev : AuthorityEvidence) (v : Bool × Option ReasonCode) (found : Assessment)
    → elem_code c (note_candidate ev v found).1 ≡ (elem_code c found.1 || rejects_for c (ok v))
unfolding note_candidate
note_candidate-codes c ev (true, why) (effective, codes) = ground arith
note_candidate-codes c ev (false, none) (effective, codes) = ground arith
note_candidate-codes c ev (false, some why) (effective, codes) = elem_code-note c why codes

module _ {F : Type 0} (host : Host F) (at : String) where
  abbrev pub verdict : AuthorityEvidence → Result (Bool × Option ReasonCode)
  verdict ev = authority_is_effective host ev at

  -- The effective candidates are collected in input order, behind those found before.
  pub assess-effective :
      (cs : List AuthorityEvidence) (found : Assessment) {found' : Assessment}
      → assess host cs at found ≡ ok found'
      → found'.0 ≡ found.0 ++ filter (λ ev. accepts (verdict ev)) cs
  unfolding assess
  assess-effective [] found h = ground (arith, append-nil found.0)
  assess-effective (ev ∷ rest) found h = elim (Result-cases (verdict ev)) [
    | inl (v, e) ↦
        assess-effective rest (note_candidate ev v found) (rw e at h)
        ∙ rw e (note_candidate-effective ev v found _)
    | inr (x, e) ↦ cc (rw e at h)
  ]

  -- A code is noted if and only if it was there before or some candidate was rejected for it.
  pub assess-codes :
      (c : ReasonCode) (cs : List AuthorityEvidence) (found : Assessment) {found' : Assessment}
      → assess host cs at found ≡ ok found'
      → elem_code c found'.1 ≡ (elem_code c found.1 || any (λ ev. rejects_for c (verdict ev)) cs)
  unfolding assess
  assess-codes c [] found h = ground arith
  assess-codes c (ev ∷ rest) found h = elim (Result-cases (verdict ev)) [
    | inl (v, e) ↦
        assess-codes c rest (note_candidate ev v found) (rw e at h)
        ∙ rw e (ground (arith, note_candidate-codes c ev v found))
    | inr (x, e) ↦ cc (rw e at h)
  ]

  -- The loop ends with an assessment when every candidate gets a verdict, and only then.
  pub assess_total :
      (cs : List AuthorityEvidence) (found : Assessment)
      → All (λ ev. (v : Bool × Option ReasonCode) × (verdict ev ≡ ok v)) cs
      → (found' : Assessment) × (assess host cs at found ≡ ok found')
  unfolding assess
  assess_total [] found h = (found, refl)
  assess_total (ev ∷ rest) found ((v, e), h) =
      let (found', e') = assess_total rest (note_candidate ev v found) h in (found', rw e e')

  pub assess-verdicts :
      (cs : List AuthorityEvidence) (found : Assessment) {found' : Assessment}
      → assess host cs at found ≡ ok found'
      → All (λ ev. (v : Bool × Option ReasonCode) × (verdict ev ≡ ok v)) cs
  unfolding assess
  assess-verdicts [] found h = tt
  assess-verdicts (ev ∷ rest) found h = elim (Result-cases (verdict ev)) [
    | inl (v, e) ↦ ((v, e), assess-verdicts rest (note_candidate ev v found) (rw e at h))
    | inr (x, e) ↦ cc (rw e at h)
  ]
