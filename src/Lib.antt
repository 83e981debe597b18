-- ===== src/Lib.antt =====
-- The governance plane and its Kernel: a deterministic authorization decision over explicit evidence,
-- and the store that supplies the evidence and keeps the decisions.
--
-- The parts, with the paths from the repository's root:
--   Kernel.Types, Kernel.Json, Kernel.Timestamp: src/connect_governance_kernel/types.py, the input and
--     output contract with the same names, and `parse_rfc3339`.
--   Kernel.Authority, Kernel.Evaluate: src/connect_governance_kernel/evaluate.py. `evaluate` threads
--     one record of the five lists that the code appends to through one function for each stage, in
--     the order of the code; `_authority_is_effective` is `authority_is_effective`. The child modules
--     hold the theorems: the window of an authority, the verdicts on all candidates, the outcome, the
--     order of conditions and of reason codes, and when `evaluate` returns.
--   Schema: src/connect_governance/db/models.py, the rows and what the table constraints admit.
--   Store: the session. A table is an interface of a scan, a lookup by key and an insertion that the
--     constraints may refuse; `flush` adds rows one by one and raises when one is refused;
--     `transaction` is the caller's `with session.begin():`. Store.Laws, Store.Growth,
--     Store.Flush and Store.Grants have the lemmas on tables, on what a flush keeps and how it ends.
--   Codec: the texts that rows hold, as an interface with a round-trip law.
--   Genesis: src/connect_governance/genesis.py, `initialize_deployment` and its guards.
--   Resolution: src/connect_governance/resolution.py, from rows to a `DecisionRequest`.
--   Decisions, Replay: src/connect_governance/decisions.py, Decision Records written, read back and
--     evaluated again.
--   WorkRequests: src/connect_governance/work_requests.py, `create_work_request`.
--   Providers: src/connect_governance/providers.py, `create_listing` and `activate_provider`.
--   Base64: `_b64e` and `_b64d` of src/connect_governance_grants/signing.py, and what Python's base64
--     does for them: the encoder with its padding taken off, and the lenient decoder with its states.
--   Signing: src/connect_governance_grants/signing.py. A signature check is one function,
--     `signature_is_valid`, which `verify_grant` and `verify_revocation_list` share as their sources
--     repeat it. Signing.Scheme is the interface of keys and signatures.
--   Grants: src/connect_governance/grants.py, `issue_grant` in its reading part, `prepare_grant`, and
--     its write, and `load_grant`.
--   Revocations: src/connect_governance/revocations.py, lists built, checked and recorded. Chain
--     describes one line of descent, Recorded a call on it, History any sequence of calls. Document is
--     the check of a Mapping in place of a RevocationList.
--   IssuerKeys: src/connect_governance/keys.py, `generate_key` and `show_public_pem` over a list of
--     files; the key that is generated is an argument.
--   Explanation: src/connect_governance/explanation.py, with a record for each dict that it returns;
--     Prose has its sentences, Stages and Proof the proof view, Grouped and Results what it says of a
--     Decision.
--   Canonical: src/connect_governance_kernel/canonical.py. `to_plain` and `canonical_json` over Python's
--     values, with a `str` as its code points. Dumps is what `json.dumps` does there, in two passes:
--     `arrange` sorts the items of every dict and `render` prints. Loads is a reader of JSON with fuel,
--     twice the length of the text and one more, since no two nested calls are without a character
--     between them. Documents has the documents of the other components as such values.
--   Migrations: alembic/versions, the calls of `op` in each `upgrade` and `downgrade` as a list of
--     operations. `effect` says what an operation does to the names that a database declares. Metadata
--     is src/connect_governance/db/models.py as SQLAlchemy's declarations, History the steps of Alembic
--     along `down_revision`, each of which first creates Alembic's table `alembic_version` unless it is
--     there; Head and Agreement compare the two.
--   Queries: src/connect_governance/queries.py, filters over the scans of the tables.
--   Prelude: Boolean tests on native numbers, lists, merges of lists, results of code that raises.
--   Samples: a host, tables as lists, a codec and a toy signature scheme, on which every theorem below is
--     applied.
--
-- An operation on the session is a function from a session to a result and a session. An exception is
-- a value of `Error`, which keeps the class of the exception and not its message.
--
-- Parameters, which stand for code outside the repository:
--   Host: the floats with their `>` and zero, and `datetime.fromisoformat`, which returns a naive
--     datetime, an aware one with its instant, or raises.
--   Crypto: the keys, PEM forms and signatures of the cryptography package, and SHA-256. Relied on are
--     that an Ed25519 public key survives its PEM form and accepts its private key's signatures, that
--     a signature is bytes, and that `verify` of an Ed25519 key returns or raises InvalidSignature.
--   canonical: the canonical text that is signed, of a grant's payload or of a list without its
--     signature. Issuing and checking need no law about it; Signing.Covered and Revocations.Covered
--     take the text of Canonical for it, and say what it covers.
--   Format: how Python writes a float, an int and `repr` of a text into an f-string.
--   Codecs: `canonical_json`, `json.dumps`, `json.loads` and pydantic's validation of a stored record.
--   FloatText: the text of a float and its reading, with no float infinite or a NaN.
--   Migrations.Database: SQLAlchemy's inspection of a database and the execution of an operation, which
--     has the effect that `CREATE` and `DROP` are documented to have. A database is at its base if it
--     has no row in `alembic_version`. That table has the column `version_num`, its primary key, as
--     Alembic documents it.
--   Store.Database: the tables of SQLAlchemy on SQLite. Foreign keys are not in the model, since SQLite
--     does not enforce them unless a connection asks for it, which db/session.py does not.
-- A Mapping is the list of its items, in the order of their keys. Instants are natural numbers. All
-- recursion is structural, save in Canonical: the reader, and the digits of a number, whose fuel is the
-- number and one more.
--
-- Not modelled: the command line of src/connect_governance/keys.py and the permissions of its files;
-- src/connect_governance/db/session.py and alembic/env.py, which configure SQLAlchemy and Alembic; the
-- modules that only pass names on. The stored records take their texts from the codecs above, not from
-- Canonical. A text outside Canonical is a sequence of Unicode scalar values, without the lone
-- surrogates that a Python str may hold and that `encode` refuses.
pub mod Prelude
pub mod Kernel
pub mod Schema
pub mod Store
pub mod Codec
pub mod Base64
pub mod Signing
pub mod Genesis
pub mod Resolution
pub mod Decisions
pub mod Replay
pub mod WorkRequests
pub mod Providers
pub mod Grants
pub mod Revocations
pub mod Explanation
pub mod Queries
pub mod IssuerKeys
pub mod Canonical
pub mod Migrations
pub mod Samples
