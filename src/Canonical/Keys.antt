-- ===== src/Canonical/Keys.antt =====
-- src/connect_governance_kernel/canonical.py: the dicts that `to_plain` makes have distinct keys.
use connect_governance.Prelude.{
  ◌≡◌, refl, ◌∙◌, inl, inr, Bool, true, false, ◌||◌, [], ◌∷◌, arith, Bool-cases,
}
use connect_governance.Canonical.{
  Text, eqb, put, Plain, atom, list, dict, Items, nil, cons, Members, end, member, Value, model,
  mapping, sequence, other, no_values, value, no_fields, attribute, no_entries, entry, to_plain,
  plain_values, dumped_fields, plain_entries,
}

abbrev pub has_key : {F : Type 0} → Text → Members F → Bool
has_key k end = false
has_key k (member j v ms) = eqb j k || has_key k ms

-- A JSON value of Python: at no level does a dict have a key twice.
unfoldable mutual
  pub IsPlain : {F : Type 0} → Plain F → Type 0
  IsPlain (atom a) = Unit
  IsPlain (list xs) = IsPlainItems xs
  IsPlain (dict ms) = IsPlainMembers ms

  pub IsPlainItems : {F : Type 0} → Items F → Type 0
  IsPlainItems nil = Unit
  IsPlainItems (cons v xs) = IsPlain v × IsPlainItems xs

  pub IsPlainMembers : {F : Type 0} → Members F → Type 0
  IsPlainMembers end = Unit
  IsPlainMembers (member k v ms) = (has_key k ms ≡ false) × IsPlain v × IsPlainMembers ms

eqb_refl : (s : Text) → eqb s s ≡ true
eqb_refl [] = refl
eqb_refl (a ∷ s) = ground (arith, eqb_refl s)

pub eqb_eq : (s t : Text) → eqb s t ≡ true → s ≡ t
eqb_eq [] [] h = refl
eqb_eq [] (b ∷ t) h = cc
eqb_eq (a ∷ s) [] h = cc
eqb_eq (a ∷ s) (b ∷ t) h =
    let head : a ≡ b = ground arith in let tail : s ≡ t = eqb_eq s t (ground arith) in cc

pub eqb_comm : (s t : Text) → eqb s t ≡ eqb t s
eqb_comm [] [] = refl
eqb_comm [] (b ∷ t) = refl
eqb_comm (a ∷ s) [] = refl
eqb_comm (a ∷ s) (b ∷ t) = ground (arith, eqb_comm s t)

module _ {F : Type 0} where
  has_key-put :
      (j k : Text) (v : Plain F) (ms : Members F)
      → has_key j (put k v ms) ≡ (eqb k j || has_key j ms)
  has_key-put j k v end = refl
  has_key-put j k v (member i w ms) = elim (Bool-cases (eqb i k)) [
    | inl e ↦ let same : i ≡ k = eqb_eq i k e in rw e (rw same (ground arith))
    | inr e ↦ rw e (ground (arith, has_key-put j k v ms))
  ]

  put-IsPlainMembers :
      (k : Text) (v : Plain F) (ms : Members F)
      → IsPlain v
      → IsPlainMembers ms
      → IsPlainMembers (put k v ms)
  unfolding IsPlainMembers
  put-IsPlainMembers k v end p q = (refl, p, tt)
  put-IsPlainMembers k v (member j w ms) p (fresh, pw, q) = elim (Bool-cases (eqb j k)) [
    | inl e ↦ rw e (fresh, p, q)
    | inr e ↦
        rw e (has_key-put j k v ms ∙ rw (eqb_comm k j ∙ e) fresh, pw, put-IsPlainMembers k v ms p q)
  ]

module _ {F K : Type 0} (str : K → Text) where
  -- Whatever the keys of a mapping are and however `str` prints them, `to_plain` returns a JSON-native
  -- value: no dict of it, at any level, has a key twice.
  pub to_plain-IsPlain : (v : Value F K) → IsPlain (to_plain str v)
  unfolding IsPlain to_plain
  to_plain-IsPlain v =
      elim v
        as (λ v. IsPlain (to_plain str v)) (λ vs. IsPlainItems (plain_values str vs)) (λ fs.
          (d : Members F) → IsPlainMembers d → IsPlainMembers (dumped_fields str fs d)) (λ es.
            (d : Members F) → IsPlainMembers d → IsPlainMembers (plain_entries str es d)) [
              | model (fs → ih) ↦ ih end tt
              | mapping (es → ih) ↦ ih end tt
              | sequence t (vs → ih) ↦ ih
              | other a ↦ tt
              | no_values ↦ tt
              | value (w → ih) (vs → ihs) ↦ (ih, ihs)
              | no_fields ↦ λ d p. p
              | attribute k (w → ih) (fs → ihs) ↦
                  λ d p. ihs _ (put-IsPlainMembers k (to_plain str w) d ih p)
              | no_entries ↦ λ d p. p
              | entry k (w → ih) (es → ihs) ↦
                  λ d p. ihs _ (put-IsPlainMembers (str k) (to_plain str w) d ih p)
            ]
