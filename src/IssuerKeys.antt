-- ===== src/IssuerKeys.antt =====
-- src/connect_governance/keys.py: issuer keys in files. The command line around them is left out.
pub mod Custody
use connect_governance.Prelude.{
  String, Bool, true, false, Option, none, some, List, [], ◌∷◌, ◌==◌, dict_get, if◌then◌else◌,
  Error, Result, ok, err, ◌>>=◌,
}
use connect_governance.Signing.{public_key_id, signing_key}
use connect_governance.Signing.Scheme.{Crypto}

-- The files that are there, each with its path and its text; an earlier entry hides a later one.
abbrev pub Files : Type 0
Files = List (String × String)

-- os.path.exists(path)
abbrev pub exists : String → Files → Bool
exists path files = elim (dict_get path files) [ none ↦ false | some text ↦ true ]

-- open(path, "rb").read()
abbrev pub read_file : String → Files → Result String
read_file path files = elim (dict_get path files) [
  | none ↦ err Error.file_not_found_error
  | some text ↦ ok text
]

module _ (crypto : Crypto) where
  -- `signing_key` loads the key and refuses every kind but Ed25519.
  unfoldable pub show_public_pem : String → Files → Result String
  show_public_pem path files = do
    text ← read_file path files
    key ← signing_key crypto text
    ok (crypto.public_pem (crypto.public_key key))

  -- `key` is what Ed25519PrivateKey.generate() returns.
  unfoldable pub generate_key : crypto.PrivateKey → String → Files → Result String × Files
  generate_key key path files =
      if exists path files
      then (err Error.file_exists_error, files)
      else (let written = (path, crypto.private_pem key) ∷ files in
          (show_public_pem path written >>= public_key_id crypto, written))
