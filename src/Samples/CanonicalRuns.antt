-- ===== src/Samples/CanonicalRuns.antt =====
-- src/connect_governance_kernel/canonical.py: two dicts with their keys in different orders.
use connect_governance.Prelude.{
  ℕ, zero, suc, ◌≡◌, refl, ◌↔◌, Bool, true, false, Option, none, some, if◌then◌else◌, all, any,
}
use connect_governance.Prelude.Int.{pos, negsuc}
use connect_governance.Kernel.Timestamp.{codes}
use connect_governance.Canonical.{
  Text, null, bool, int, float, text, Plain, atom, dict, end, member, Value, model, mapping,
  sequence, other, no_values, value, no_fields, attribute, no_entries, entry, eqb, to_plain,
}
use connect_governance.Canonical.Dumps.{canonical_json}
use connect_governance.Canonical.Loads.{FloatText, loads, is_number, is_point}
use connect_governance.Canonical.Unique.{Same, loads-canonical_json, canonical_json-iff-Same}

-- Two floats.
abbrev pub sample_repr : Bool → Text
sample_repr true = codes "1.5"
sample_repr false = codes "1e+16"

abbrev pub sample_parse : Text → Option Bool
sample_parse t =
    if eqb t (codes "1.5") then some true else if eqb t (codes "1e+16") then some false else none

pub sample_parse-repr : (x : Bool) → sample_parse (sample_repr x) ≡ some x
sample_parse-repr true = refl
sample_parse-repr false = refl

pub sample_repr_number : (x : Bool) → all is_number (sample_repr x) ≡ true
sample_repr_number true = refl
sample_repr_number false = refl

pub sample_repr_point : (x : Bool) → any is_point (sample_repr x) ≡ true
sample_repr_point true = refl
sample_repr_point false = refl

abbrev pub sample_floats : FloatText Bool
sample_floats = record {
  repr = sample_repr;
  parse = sample_parse;
  parse-repr = sample_parse-repr;
  repr_number = sample_repr_number;
  repr_point = sample_repr_point;
}

-- As `str` prints 1 and "1" alike, so all keys but 0 here.
abbrev Key : Type 0
Key = ℕ

abbrev print_key : Key → Text
print_key zero = codes "b"
print_key (suc k) = codes "a"

abbrev atoms : Value Bool Key
atoms = sequence true (
    value (other (text (codes "é\"\n")))
      (value (other (float true)) (value (other null) no_values)))

abbrev first : Value Bool Key
first = mapping (entry 0 (other (int (negsuc 11))) (entry 1 atoms no_entries))

abbrev second : Value Bool Key
second =
    model (attribute (codes "a") atoms (attribute (codes "b") (other (int (negsuc 11))) no_fields))

abbrev twice : Value Bool Key
twice =
    mapping
      (entry 1 (other (bool true)) (entry 0 (other null) (entry 2 (other (bool false)) no_entries)))

first_text :
    canonical_json sample_repr print_key first ≡ codes "{\"a\":[\"é\\\"\\n\",1.5,null],\"b\":-12}"
unfolding canonical_json
first_text = refl

first_is_read :
    loads sample_floats (codes "{\"a\":[\"é\\\"\\n\",1.5,null],\"b\":-12}")
    ≡ some (
        dict (
          member
            (codes "a")
            (to_plain print_key atoms)
            (member (codes "b") (atom (int (negsuc 11))) end)))
unfolding loads to_plain
first_is_read = refl

-- The later of two values under one key.
twice_text : canonical_json sample_repr print_key twice ≡ codes "{\"a\":false,\"b\":null}"
unfolding canonical_json
twice_text = refl

loads-canonical_json_example :
    (p : Plain Bool) × (loads sample_floats (canonical_json sample_repr print_key first) ≡ some p)
    × Same p (to_plain print_key first)
loads-canonical_json_example = loads-canonical_json sample_floats print_key first

canonical_json-iff-Same_example :
    (canonical_json sample_repr print_key first ≡ canonical_json sample_repr print_key second)
    ↔ Same (to_plain print_key first) (to_plain print_key second)
canonical_json-iff-Same_example = canonical_json-iff-Same sample_floats print_key first second

-- An order that a list has is kept.
pair_text :
    canonical_json sample_repr print_key
      (sequence false (value (other (int (pos 20))) (value (other (int (pos 3))) no_values)))
    ≡ codes "[20,3]"
unfolding canonical_json
pair_text = refl
