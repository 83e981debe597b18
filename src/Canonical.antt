-- ===== src/Canonical.antt =====
-- src/connect_governance_kernel/canonical.py: `to_plain` and `canonical_json`, with what they use of
-- Python's `json`. A `str` is its code points.
pub mod Keys
pub mod Dumps
pub mod Loads
mod Order
mod Strings
mod Numbers
mod RoundTrip
pub mod Unique
pub mod Documents
use connect_governance.Prelude.{ℕ, Bool, true, false, ◌&&◌, List, [], ◌∷◌, ◌=ℕ◌, ltb, if◌then◌else◌}
use connect_governance.Prelude.Int.{ℤ}

abbrev pub Text : Type 0
Text = List ℕ

-- None, a bool, an int, a float or a str. `F` is Python's `float`.
pub data Atom (F : Type 0) : Type 0 where
  null : Atom F
  bool : Bool → Atom F
  int : ℤ → Atom F
  float : F → Atom F
  text : Text → Atom F

-- JSON-native values, what `json.dumps` takes.
mutual
  pub data Plain (F : Type 0) : Type 0 where
    atom : Atom F → Plain F
    list : Items F → Plain F
    dict : Members F → Plain F

  pub data Items (F : Type 0) : Type 0 where
    nil : Items F
    cons : Plain F → Items F → Items F

  pub data Members (F : Type 0) : Type 0 where
    end : Members F
    member : Text → Plain F → Members F → Members F

-- What `to_plain` takes: a model, by the items of its `model_dump(mode="json")`, a dict with keys of a
-- type `K`, a list or a tuple, or another value, which has to be JSON-native.
mutual
  pub data Value (F K : Type 0) : Type 0 where
    model : Dumped F K → Value F K
    mapping : Entries F K → Value F K
    sequence : (is_tuple : Bool) → Values F K → Value F K
    other : Atom F → Value F K

  pub data Values (F K : Type 0) : Type 0 where
    no_values : Values F K
    value : Value F K → Values F K → Values F K

  pub data Dumped (F K : Type 0) : Type 0 where
    no_fields : Dumped F K
    attribute : Text → Value F K → Dumped F K → Dumped F K

  pub data Entries (F K : Type 0) : Type 0 where
    no_entries : Entries F K
    entry : K → Value F K → Entries F K → Entries F K

abbrev pub eqb : Text → Text → Bool
eqb [] [] = true
eqb (a ∷ s) (b ∷ t) = a =ℕ b && eqb s t
eqb _ _ = false

-- d[k] = v: a key that is there keeps its place.
abbrev pub put : {F : Type 0} → Text → Plain F → Members F → Members F
put k v end = member k v end
put k v (member j w ms) = if eqb j k then member j v ms else member j w (put k v ms)

module _ {F K : Type 0} (str : K → Text) where
  unfoldable mutual
    pub to_plain : Value F K → Plain F
    to_plain (model fs) = dict (dumped_fields fs end)
    to_plain (mapping es) = dict (plain_entries es end)
    to_plain (sequence is_tuple vs) = list (plain_values vs)
    to_plain (other a) = atom a

    pub plain_values : Values F K → Items F
    plain_values no_values = nil
    plain_values (value v vs) = cons (to_plain v) (plain_values vs)

    -- {k: to_plain(v) for k, v in items}
    pub dumped_fields : Dumped F K → Members F → Members F
    dumped_fields no_fields d = d
    dumped_fields (attribute k v fs) d = dumped_fields fs (put k (to_plain v) d)

    -- {str(k): to_plain(v) for k, v in items}
    pub plain_entries : Entries F K → Members F → Members F
    plain_entries no_entries d = d
    plain_entries (entry k v es) d = plain_entries es (put (str k) (to_plain v) d)
