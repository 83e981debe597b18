-- ===== src/Signing/Scheme.antt =====
-- The `cryptography` package and `hashlib`, as far as keys and signatures go through them. What is
-- relied on: a key survives its PEM form, Ed25519 accepts the signatures of its own private key,
-- and `verify` of an Ed25519 key returns or raises InvalidSignature.
use connect_governance.Prelude.{ℕ, String, ◌≡◌, ◌⊎◌, Bool, true, List, All, Error, Result, ok, err}
use connect_governance.Base64.RoundTrip.{IsByte}

pub record Crypto : Type 1 where
  pub PrivateKey : Type 0
  pub PublicKey : Type 0
  -- load_pem_private_key(pem.encode("utf-8"), password=None)
  pub load_private : String → Result PrivateKey
  -- private_bytes(Encoding.PEM, PrivateFormat.PKCS8, NoEncryption())
  pub private_pem : PrivateKey → String
  -- load_pem_public_key(pem.encode("utf-8"))
  pub load_public : String → Result PublicKey
  -- isinstance(key, Ed25519PrivateKey), isinstance(key, Ed25519PublicKey)
  pub is_private_ed25519 : PrivateKey → Bool
  pub is_public_ed25519 : PublicKey → Bool
  -- key.public_key()
  pub public_key : PrivateKey → PublicKey
  -- public_bytes(Encoding.PEM, PublicFormat.SubjectPublicKeyInfo).decode("utf-8")
  pub public_pem : PublicKey → String
  -- public_bytes(Encoding.Raw, PublicFormat.Raw)
  pub public_raw : PublicKey → List ℕ
  -- hashlib.sha256(raw).hexdigest()
  pub sha256_hex : List ℕ → String
  pub sign : PrivateKey → List ℕ → List ℕ
  -- The keys that are for agreeing on a secret have no attribute `verify`.
  pub has_verify : PublicKey → Bool
  -- key.verify(signature, data), with the two arguments that the code gives it
  pub verify : PublicKey → (signature message : List ℕ) → Result (Unit {0})
  pub load_private-private_pem :
      (k : PrivateKey) → is_private_ed25519 k ≡ true → load_private (private_pem k) ≡ ok k
  pub public_key-ed25519 :
      (k : PrivateKey) → is_private_ed25519 k ≡ true → is_public_ed25519 (public_key k) ≡ true
  pub has_verify-ed25519 : (k : PublicKey) → is_public_ed25519 k ≡ true → has_verify k ≡ true
  pub load_public-public_pem :
      (k : PublicKey) → is_public_ed25519 k ≡ true → load_public (public_pem k) ≡ ok k
  pub sign-IsByte :
      (k : PrivateKey) (message : List ℕ)
      → is_private_ed25519 k ≡ true
      → All IsByte (sign k message)
  pub verify-sign :
      (k : PrivateKey) (message : List ℕ)
      → is_private_ed25519 k ≡ true
      → verify (public_key k) (sign k message) message ≡ ok tt
  pub verify_ends :
      (k : PublicKey) (signature message : List ℕ)
      → is_public_ed25519 k ≡ true
      → (verify k signature message ≡ ok tt)
        ⊎ (verify k signature message ≡ err Error.invalid_signature)
