-- ===== src/Prelude/Errors.antt =====
-- Code that raises returns a `Result`, with the exceptions that the program raises or lets through.
use mathlib.Core.Path.{◌≡◌, refl}
use mathlib.Core.Logic.{◌⊎◌, inl, inr}

pub data Error : Type 0 where
  value_error key_error integrity_error : Error
  genesis_refused work_request_refused listing_refused activation_refused : Error
  grant_issuance_refused revocation_chain_refused : Error
  file_exists_error file_not_found_error : Error
  invalid_signature type_error attribute_error unsupported_algorithm : Error

-- The value that a call returns, or the exception that it raises.
pub data Result (A : Type 0) : Type 0 where
  ok : (value : A) → Result A
  err : (raised : Error) → Result A

module _ {A : Type 0} where
  pub Result-cases : (m : Result A) → ((a : A) × (m ≡ ok a)) ⊎ ((e : Error) × (m ≡ err e))
  Result-cases (err raised) = inr (raised, refl)
  Result-cases (ok value) = inl (value, refl)

module _ {A B : Type 0} where
  -- An exception passes the rest by.
  infixl 5 ◌>>=◌
  abbrev pub ◌>>=◌ : Result A → (A → Result B) → Result B
  err raised >>= rest = err raised
  ok value >>= rest = rest value

  -- A chain that returned had a first value.
  pub >>=-eq-ok :
      (m : Result A) (rest : A → Result B) {b : B}
      → (m >>= rest) ≡ ok b
      → (a : A) × (m ≡ ok a) × (rest a ≡ ok b)
  >>=-eq-ok (err raised) rest h = cc
  >>=-eq-ok (ok value) rest h = (value, refl, h)
