-- ===== src/Canonical/Documents.antt =====
-- The JSON documents that other components hold, as values of Python, and the parts of a document
-- that its arrangement keeps.
use Prim.Native.String.{String}
use package.text.Mathlib.TextEquality.{Char-path}
use connect_governance.Prelude.{
  ℕ, false, ◌≡◌, refl, sym, ap, ◌∙◌, Option, none, some, List, [], ◌∷◌, map, if◌then◌else◌,
}
use connect_governance.Kernel.Json.{Json, Items as JsonItems, Fields}
use connect_governance.Kernel.Timestamp.{codes}
use connect_governance.Canonical.{
  Text, null, bool, int, float, text, Plain, atom, list, dict, Items, nil, cons, Members, end,
  member, Value, Values, Entries, mapping, sequence, other, no_values, value, no_entries, entry,
  eqb, to_plain, plain_values,
}
use connect_governance.Canonical.Dumps.{arrange, arrange_items}

module _ {F : Type 0} where
  unfoldable mutual
    pub value_of : Json F → Value F String
    value_of Json.null = other null
    value_of (Json.bool b) = other (bool b)
    value_of (Json.int n) = other (int n)
    value_of (Json.float x) = other (float x)
    value_of (Json.str s) = other (text (codes s))
    value_of (Json.arr xs) = sequence false (values_of xs)
    value_of (Json.obj fs) = mapping (entries_of fs)

    pub values_of : JsonItems F → Values F String
    values_of JsonItems.nil = no_values
    values_of (JsonItems.cons v xs) = value (value_of v) (values_of xs)

    pub entries_of : Fields F → Entries F String
    entries_of Fields.end = no_entries
    entries_of (Fields.field k v fs) = entry k (value_of v) (entries_of fs)

  abbrev pub text_value : String → Value F String
  text_value s = other (text (codes s))

  abbrev pub text_values : List String → Values F String
  text_values [] = no_values
  text_values (s ∷ ss) = value (text_value s) (text_values ss)

  abbrev pub option_value : Option String → Value F String
  option_value none = other null
  option_value (some s) = text_value s

  -- d[k], and null where there is none.
  abbrev pub item : Text → Members F → Plain F
  item k end = atom null
  item k (member j v ms) = if eqb j k then v else item k ms

  abbrev pub at : String → Plain F → Plain F
  at k (dict ms) = item (codes k) ms
  at k v = atom null

  abbrev pub as_text : Plain F → Text
  as_text (atom (text s)) = s
  as_text v = []

  abbrev pub as_option : Plain F → Option Text
  as_option (atom (text s)) = some s
  as_option v = none

  abbrev pub as_texts : Items F → List Text
  as_texts nil = []
  as_texts (cons v xs) = as_text v ∷ as_texts xs

  abbrev pub as_list : Plain F → List Text
  as_list (list xs) = as_texts xs
  as_list v = []

abbrev pub option_codes : Option String → Option Text
option_codes none = none
option_codes (some s) = some (codes s)

module _ (F : Type 0) where
  pub as_option-arrange :
      (o : Option String)
      → as_option {F = F} (arrange (to_plain codes (option_value o))) ≡ option_codes o
  unfolding arrange to_plain
  as_option-arrange none = refl
  as_option-arrange (some s) = refl

  pub as_texts-arrange :
      (ss : List String)
      → as_texts {F = F} (arrange_items (plain_values codes (text_values ss))) ≡ map codes ss
  unfolding arrange to_plain
  as_texts-arrange [] = refl
  as_texts-arrange (s ∷ ss) = ap (λ x. codes s ∷ x) (as_texts-arrange ss)

-- A text has its code points only.
abbrev first_code : Text → ℕ
first_code [] = 0
first_code (c ∷ s) = c

abbrev rest_codes : Text → Text
rest_codes [] = []
rest_codes (c ∷ s) = s

pub codes_injective : (s t : String) → codes s ≡ codes t → s ≡ t
codes_injective String.[] String.[] h = refl
codes_injective String.[] (String.◌∷◌ d t) h = cc
codes_injective (String.◌∷◌ c s) String.[] h = cc
codes_injective (String.◌∷◌ c s) (String.◌∷◌ d t) h =
    let head : c ≡ d = Char-path c d (ap first_code h) in
    let tail : s ≡ t = codes_injective s t (ap rest_codes h) in cc

pub option_codes_injective : (o p : Option String) → option_codes o ≡ option_codes p → o ≡ p
option_codes_injective none none h = refl
option_codes_injective none (some t) h = cc
option_codes_injective (some s) none h = cc
option_codes_injective (some s) (some t) h = ap some (codes_injective s t cc)

pub codes_list_injective : (ss ts : List String) → map codes ss ≡ map codes ts → ss ≡ ts
codes_list_injective [] [] h = refl
codes_list_injective [] (t ∷ ts) h = cc
codes_list_injective (s ∷ ss) [] h = cc
codes_list_injective (s ∷ ss) (t ∷ ts) h =
    let head : s ≡ t = codes_injective s t cc in
    let tail : ss ≡ ts = codes_list_injective ss ts cc in cc

module _ {F : Type 0} where
  pub option_same :
      (o p : Option String)
      → arrange {F = F} (to_plain codes (option_value o))
        ≡ arrange (to_plain codes (option_value p))
      → o ≡ p
  option_same o p h =
      option_codes_injective o p
        (sym (as_option-arrange F o) ∙ ap as_option h ∙ as_option-arrange F p)

  pub list_same :
      (ss ts : List String)
      → arrange {F = F} (to_plain codes (sequence false (text_values ss)))
        ≡ arrange (to_plain codes (sequence false (text_values ts)))
      → ss ≡ ts
  unfolding arrange to_plain
  list_same ss ts h =
      codes_list_injective ss ts
        (sym (as_texts-arrange F ss) ∙ ap as_list h ∙ as_texts-arrange F ts)
