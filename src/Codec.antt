-- ===== src/Codec.antt =====
-- The texts that rows store: `canonical_json` and `json.dumps` write them, `json.loads` and
-- pydantic's `model_validate` read them back. What is relied on is that a value that a text can hold
-- comes back: no float in it is a NaN or infinite, no string has a lone surrogate, and a Mapping has
-- distinct keys, in their order.
use connect_governance.Prelude.{String, ◌≡◌, List, Result, ok}
use connect_governance.Kernel.Json.{Json}
use connect_governance.Kernel.Types.{DecisionRequest, Decision}

pub record Codec (A : Type 0) : Type 1 where
  pub encode : A → String
  pub decode : String → Result A
  pub Holds : A → Type 0
  pub decode-encode : (a : A) → Holds a → decode (encode a) ≡ ok a

pub record Codecs (F : Type 0) : Type 1 where
  -- json.dumps of a list of strings, and tuple(json.loads(text))
  pub keys : Codec (List String)
  -- canonical_json(request), and DecisionRequest.model_validate(json.loads(text))
  pub requests : Codec (DecisionRequest F)
  -- canonical_json(decision), and Decision.model_validate(json.loads(text))
  pub decisions : Codec Decision
  -- canonical_json of a document or of a tuple of strings
  pub canonical_document : Json F → String
  pub canonical_keys : List String → String
  -- json.loads, which reads every Decision that was written.
  pub load_document : String → Result (Json F)
  pub load-decision :
      (d : Decision)
      → decisions.Holds d
      → (j : Json F) × (load_document (decisions.encode d) ≡ ok j)
