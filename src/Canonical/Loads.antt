-- ===== src/Canonical/Loads.antt =====
-- Python's json.loads, on texts without insignificant white space: the reader that the canonical texts
-- are meant for. Of texts that are no JSON it takes some that Python refuses. A text of a number with
-- `.`, `e` or `E` is a float, which `float` reads.
use Prim.Native.Nat.{◌*◌}
use connect_governance.Prelude.{
  ℕ, zero, suc, ◌+◌, ◌-◌, Bool, true, false, ◌||◌, ◌&&◌, Option, none, some, [], ◌∷◌, ◌++◌, any,
  all, ◌≡◌, ltb, leb, ◌=ℕ◌, if◌then◌else◌,
}
use connect_governance.Prelude.Int.{ℤ, pos, negsuc}
use connect_governance.Kernel.Timestamp.{codes}
use connect_governance.Base64.{length}
use connect_governance.Canonical.{
  Text, Atom, null, bool, int, float, text, Plain, atom, list, dict, Items, nil, cons, Members, end,
  member,
}

-- Inside a string: at a character, behind a backslash, or with `left` digits of `\\u` to come.
pub data Mode : Type 0 where
  plain escaped : Mode
  hex : (left : ℕ) → (value : ℕ) → Mode

pub data Event : Type 0 where
  closed bad : Event
  goes : Mode → Event
  emits : ℕ → Event

abbrev pub hex_value : ℕ → ℕ
hex_value c = if ltb c 58 then c - b'0' else c - 87

abbrev pub unescape : ℕ → Event
unescape c =
    if c =ℕ b'u'
    then goes (hex 3 0)
    else if c =ℕ b'b'
    then emits 8
    else if c =ℕ b't'
    then emits 9
    else if c =ℕ b'n'
    then emits 10
    else if c =ℕ b'f'
    then emits 12
    else if c =ℕ b'r'
    then emits 13
    else if c =ℕ b'"' || c =ℕ b'\\' || c =ℕ b'/'
    then emits c
    else bad

unfoldable pub read_step : Mode → ℕ → Event
read_step plain c =
    if c =ℕ b'"'
    then closed
    else if c =ℕ b'\\'
    then goes escaped
    else if ltb c 32
    then bad
    else emits c
read_step escaped c = unescape c
read_step (hex zero value) c = emits (16 * value + hex_value c)
read_step (hex (suc left) value) c = goes (hex left (16 * value + hex_value c))

-- The string and what follows its closing quote.
unfoldable pub read_string : Mode → Text → Text → Option (Text × Text)
unfolding read_step
read_string m acc [] = none
read_string m acc (c ∷ cs) = elim (read_step m c) [
  | closed ↦ some (acc, cs)
  | bad ↦ none
  | goes m' ↦ read_string m' acc cs
  | emits d ↦ read_string plain (acc ++ d ∷ []) cs
]

abbrev pub bind {ℓ κ} : {A : Type ℓ} {B : Type κ} → Option A → (A → Option B) → Option B
bind none f = none
bind (some a) f = f a

abbrev pub is_digit : ℕ → Bool
is_digit c = leb b'0' c && leb c b'9'

-- `.`, `e` and `E`.
abbrev pub is_point : ℕ → Bool
is_point c = c =ℕ b'.' || c =ℕ b'e' || c =ℕ b'E'

abbrev pub is_number : ℕ → Bool
is_number c = is_digit c || is_point c || c =ℕ b'-' || c =ℕ b'+'

-- The characters of a number at the front, and the rest.
unfoldable pub span : Text → Text × Text
span [] = ([], [])
span (c ∷ cs) = let (t, rest) = span cs in if is_number c then (c ∷ t, rest) else ([], c ∷ cs)

unfoldable pub read_digits : ℕ → Text → Option ℕ
read_digits n [] = some n
read_digits n (c ∷ cs) =
    let rest = read_digits (10 * n + (c - b'0')) cs in if is_digit c then rest else none

abbrev pub negate : ℕ → ℤ
negate zero = pos zero
negate (suc n) = negsuc n

abbrev pub map_some {ℓ κ} : {A : Type ℓ} {B : Type κ} → (A → B) → Option A → Option B
map_some f none = none
map_some f (some a) = some (f a)

unfoldable pub read_int : Text → Option ℤ
unfolding read_digits
read_int [] = none
read_int (c ∷ cs) =
    if c =ℕ b'-' then map_some negate (read_digits 0 cs) else map_some pos (read_digits 0 (c ∷ cs))

unfoldable pub expect : Text → Text → Option Text
expect [] ts = some ts
expect (c ∷ cs) [] = none
expect (c ∷ cs) (d ∷ ts) = let rest = expect cs ts in if c =ℕ d then rest else none

-- How a float is printed, and read back: `float.__repr__` and `float`. The texts have the characters of
-- a number, one of them `.`, `e` or `E`: no float is infinite or a NaN.
pub record FloatText (F : Type 0) : Type 0 where
  pub repr : F → Text
  pub parse : Text → Option F
  pub parse-repr : (x : F) → parse (repr x) ≡ some x
  pub repr_number : (x : F) → all is_number (repr x) ≡ true
  pub repr_point : (x : F) → any is_point (repr x) ≡ true

module _ {F : Type 0} (floats : FloatText F) where
  unfoldable pub read_atom : Text → Option (Atom F)
  unfolding read_int
  read_atom t =
      if any is_point t then map_some float (floats.parse t) else map_some int (read_int t)

  unfoldable pub read_scalar : ℕ → Text → Option (Plain F × Text)
  unfolding read_atom read_string expect span
  read_scalar c cs =
      if c =ℕ b'"'
      then map_some (λ (s, rest). (atom (text s), rest)) (read_string plain [] cs)
      else if c =ℕ b'n'
      then map_some (λ rest. (atom null, rest)) (expect (codes "ull") cs)
      else if c =ℕ b't'
      then map_some (λ rest. (atom (bool true), rest)) (expect (codes "rue") cs)
      else if c =ℕ b'f'
      then map_some (λ rest. (atom (bool false), rest)) (expect (codes "alse") cs)
      else let (t, rest) = span (c ∷ cs) in map_some (λ a. (atom a, rest)) (read_atom t)

  abbrev pub read_separator : Bool → Text → Option Text
  read_separator first ts = if first then some ts else expect (b',' ∷ []) ts

  abbrev pub read_key : Text → Option (Text × Text)
  read_key ts = bind (expect (b'"' ∷ []) ts) λ cs.
      bind (read_string plain [] cs) λ (k, rest). map_some (λ r. (k, r)) (expect (b':' ∷ []) rest)

  abbrev pub starts : ℕ → Text → Bool
  starts c [] = false
  starts c (d ∷ ts) = c =ℕ d

  abbrev pub tail : Text → Text
  tail [] = []
  tail (c ∷ ts) = ts

  -- What a call leaves is no structural part of its input: each costs a unit of fuel.
  unfoldable mutual
    unfolding read_scalar

    pub read_value : ℕ → Text → Option (Plain F × Text)
    read_value zero ts = none
    read_value (suc f) [] = none
    read_value (suc f) (c ∷ cs) =
        let items = read_items f true cs in
        let members = read_members f true cs in
        if c =ℕ b'['
        then map_some (λ (xs, rest). (list xs, rest)) items
        else if c =ℕ b'{'
        then map_some (λ (ms, rest). (dict ms, rest)) members
        else read_scalar c cs

    pub read_items : ℕ → Bool → Text → Option (Items F × Text)
    read_items zero first ts = none
    read_items (suc f) first ts =
        let more = bind (read_separator first ts) λ us.
          bind (read_value f us)
            λ (v, vs). map_some (λ (xs, rest). (cons v xs, rest)) (read_items f false vs) in
        if starts b']' ts then some (nil, tail ts) else more

    pub read_members : ℕ → Bool → Text → Option (Members F × Text)
    read_members zero first ts = none
    read_members (suc f) first ts =
        let more = bind (read_separator first ts) λ us. bind (read_key us) λ (k, ks).
          bind (read_value f ks)
            λ (v, vs). map_some (λ (ms, rest). (member k v ms, rest)) (read_members f false vs) in
        if starts b'}' ts then some (end, tail ts) else more

  abbrev pub finish : Plain F × Text → Option (Plain F)
  finish (v, []) = some v
  finish (v, c ∷ ts) = none

  unfoldable pub loads : Text → Option (Plain F)
  unfolding read_value
  loads ts = bind (read_value (2 * length ts + 1) ts) finish
