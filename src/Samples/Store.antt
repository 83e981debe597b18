-- ===== src/Samples/Store.antt =====
-- Tables as lists of rows, newest first.
use connect_governance.Prelude.{
  ℕ, String, ◌≡◌, refl, subst, eq_refl, Bool, true, false, Option, none, some, List, [], ◌∷◌, ◌==◌,
  ◌=ℕ◌, Merge, Bool-cases, inl, inr, if◌then◌else◌, Error, ok, err,
}
use connect_governance.Kernel.Json.{Json}
use connect_governance.Kernel.Types.{DecisionRequest, Decision}
use connect_governance.Codec.{Codec, Codecs}
use connect_governance.Schema.{
  key_free, genesis_admits, revision_admits, listing_admits, activation_admits,
}
use connect_governance.Genesis.{founding_authorities}
use connect_governance.Store.{Table, find, Database, Session}

Merge-all : {A : Type 0} (xs : List A) → Merge [] xs xs
Merge-all [] = Merge.done
Merge-all (x ∷ xs) = Merge.right (Merge-all xs)

module _ {K Row : Type 0} (same : K → K → Bool) (key : Row → K)
    (admits : List Row → Row → Bool) where
  abbrev pub insert_row : Row → List Row → Option (List Row)
  insert_row r rows = if admits rows r then some (r ∷ rows) else none

  pub insert_row-some :
      (r : Row) (rows : List Row) {t : List Row}
      → insert_row r rows ≡ some t
      → (admits rows r ≡ true) × Merge (r ∷ []) rows t
  insert_row-some r rows {t} h = elim (Bool-cases (admits rows r)) [
    | inl e ↦
        let e' : r ∷ rows ≡ t = cc (rw e at h) in
        (e, subst (Merge (r ∷ []) rows) e' (Merge.left (Merge-all rows)))
    | inr e ↦ cc (rw e at h)
  ]

  pub insert_row-none :
      (r : Row) (rows : List Row) → insert_row r rows ≡ none → admits rows r ≡ false
  insert_row-none r rows h = elim (Bool-cases (admits rows r)) [
    | inl e ↦ cc (rw e at h)
    | inr e ↦ e
  ]

  abbrev pub list_table : Table same key admits
  list_table = record {
    State = List Row;
    scan = λ s. s;
    get = find same key;
    insert = insert_row;
    get-scan = λ s k. refl;
    insert-some = insert_row-some;
    insert-none = insert_row-none;
  }

abbrev pub keyed_table : {Row : Type 0} (key : Row → String) → Table ◌==◌ key (key_free ◌==◌ key)
keyed_table key = list_table ◌==◌ key (key_free ◌==◌ key)

abbrev pub sample_db : Database ℕ
sample_db = record {
  organizations = keyed_table (λ r. r.id);
  workspaces = keyed_table (λ r. r.id);
  persons = keyed_table (λ r. r.id);
  agents = keyed_table (λ r. r.id);
  authority_relationships = keyed_table (λ r. r.id);
  work_requests = keyed_table (λ r. r.id);
  work_request_revisions = list_table ◌==◌ (λ r. r.id) revision_admits;
  genesis_record = list_table ◌=ℕ◌ (λ r. r.singleton) genesis_admits;
  decision_records = keyed_table (λ r. r.id);
  execution_grant_records = keyed_table (λ r. r.id);
  provider_listings = list_table ◌==◌ (λ r. r.id) listing_admits;
  provider_activations = list_table ◌==◌ (λ r. r.id) activation_admits;
  revocation_list_records = keyed_table (λ r. r.list_id);
}

abbrev pub no_rows : Session sample_db
no_rows = record {
  organizations = [];
  workspaces = [];
  persons = [];
  agents = [];
  authority_relationships = [];
  work_requests = [];
  work_request_revisions = [];
  genesis_record = [];
  decision_records = [];
  execution_grant_records = [];
  provider_listings = [];
  provider_activations = [];
  revocation_list_records = [];
}

-- A codec for one value, whose text is given.
abbrev pub codec_for : {A : Type 0} (text : String) → A → Codec A
codec_for text a = record {
  encode = λ x. text;
  decode = λ t. if t == text then ok a else err Error.value_error;
  Holds = λ x. x ≡ a;
  decode-encode = λ x h. rw (eq_refl text, h);
}

abbrev pub sample_codecs : DecisionRequest ℕ → Decision → Codecs ℕ
sample_codecs request decision = record {
  keys = codec_for "keys" founding_authorities;
  requests = codec_for "request" request;
  decisions = codec_for "decision" decision;
  canonical_document = λ j. "document";
  canonical_keys = λ granted. "keys";
  load_document = λ text. ok (Json.str text);
  load-decision = λ d h. (Json.str "decision", refl);
}
