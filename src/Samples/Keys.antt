-- ===== src/Samples/Keys.antt =====
-- A toy signature scheme with the laws that are relied on, and two kinds of public keys.
use Prim.Native.Nat.{◌%◌}
use connect_governance.Prelude.{
  ℕ, String, ◌≡◌, ◌⊎◌, refl, Bool, true, false, List, [], ◌∷◌, arith, ◌==◌, ◌=ℕ◌, if◌then◌else◌,
  Error, Result, ok, err, Bool-cases, inl, inr,
}
use connect_governance.Base64.{length}
use connect_governance.Signing.Scheme.{Crypto}

-- The signature is the length of the message.
abbrev toy_sign : List ℕ → List ℕ
toy_sign message = (length message % 256) ∷ []

abbrev toy_check : List ℕ → ℕ → Result (Unit {0})
toy_check (b ∷ []) n = if b =ℕ n then ok tt else err Error.invalid_signature
toy_check _ n = err Error.invalid_signature

-- `true` is an Ed25519 key; the other kind takes more arguments.
abbrev toy_verify : Bool → List ℕ → List ℕ → Result (Unit {0})
toy_verify true signature message = toy_check signature (length message % 256)
toy_verify false signature message = err Error.type_error

abbrev toy_load_public : String → Result Bool
toy_load_public pem =
    if pem == "public" then ok true else if pem == "rsa" then ok false else err Error.value_error

abbrev toy_pem : Bool → String
toy_pem true = "public"
toy_pem false = "rsa"

pub toy_loads : (k : Bool) → k ≡ true → toy_load_public (toy_pem k) ≡ ok k
toy_loads true h = refl
toy_loads false h = cc

pub toy_accepts : (message : List ℕ) → toy_verify true (toy_sign message) message ≡ ok tt
toy_accepts message = ground arith

pub toy_ends :
    (k : Bool) (signature message : List ℕ)
    → k ≡ true
    → (toy_verify k signature message ≡ ok tt)
      ⊎ (toy_verify k signature message ≡ err Error.invalid_signature)
toy_ends true [] message h = inr refl
toy_ends true (b ∷ []) message h = elim (Bool-cases (b =ℕ length message % 256)) [
  | inl e ↦ inl (rw e refl)
  | inr e ↦ inr (rw e refl)
]
toy_ends true (b ∷ c ∷ bs) message h = inr refl
toy_ends false signature message h = cc

abbrev pub toy_crypto : Crypto
toy_crypto = record {
  PrivateKey = Unit {0};
  PublicKey = Bool;
  load_private = λ pem. if pem == "private" then ok tt else err Error.value_error;
  private_pem = λ k. "private";
  load_public = toy_load_public;
  is_private_ed25519 = λ k. true;
  is_public_ed25519 = λ k. k;
  public_key = λ k. true;
  public_pem = toy_pem;
  public_raw = λ k. [];
  sha256_hex = λ raw. "00";
  sign = λ k message. toy_sign message;
  has_verify = λ k. true;
  verify = toy_verify;
  load_private-private_pem = λ k h. refl;
  public_key-ed25519 = λ k h. refl;
  has_verify-ed25519 = λ k h. refl;
  load_public-public_pem = toy_loads;
  sign-IsByte = λ k message h. (omega arith, tt);
  verify-sign = λ k message h. toy_accepts message;
  verify_ends = toy_ends;
}
