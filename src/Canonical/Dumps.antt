-- ===== src/Canonical/Dumps.antt =====
-- src/connect_governance_kernel/canonical.py: json.dumps with sorted keys, `,` and `:` for separators
-- and `ensure_ascii=False`, and `canonical_json`.
use Prim.Native.Nat.{◌/◌, ◌%◌}
use connect_governance.Prelude.{
  ℕ, zero, suc, ◌+◌, Bool, true, false, [], ◌∷◌, ◌++◌, ltb, ◌=ℕ◌, if◌then◌else◌,
}
use connect_governance.Prelude.Int.{ℤ, pos, negsuc}
use connect_governance.Kernel.Timestamp.{codes}
use connect_governance.Canonical.{
  Text, Atom, null, bool, int, float, text, Plain, atom, list, dict, Items, nil, cons, Members, end,
  member, Value, to_plain,
}

-- Texts compare by their code points, the prefix first.
unfoldable pub text_leb : Text → Text → Bool
text_leb [] t = true
text_leb (a ∷ s) [] = false
text_leb (a ∷ s) (b ∷ t) =
    let rest = text_leb s t in if ltb a b then true else if a =ℕ b then rest else false

-- sorted(d.items()), whose keys are distinct.
unfoldable pub insert : {F : Type 0} → Text → Plain F → Members F → Members F
unfolding text_leb
insert k v end = member k v end
insert k v (member j w ms) =
    let rest = insert k v ms in if text_leb k j then member k v (member j w ms) else member j w rest

-- Every dict of the value with its items in order.
unfoldable mutual
  unfolding insert

  pub arrange : {F : Type 0} → Plain F → Plain F
  arrange (atom a) = atom a
  arrange (list xs) = list (arrange_items xs)
  arrange (dict ms) = dict (arrange_members ms)

  pub arrange_items : {F : Type 0} → Items F → Items F
  arrange_items nil = nil
  arrange_items (cons v xs) = cons (arrange v) (arrange_items xs)

  pub arrange_members : {F : Type 0} → Members F → Members F
  arrange_members end = end
  arrange_members (member k v ms) = insert k (arrange v) (arrange_members ms)

-- The digits of a number below 16.
abbrev pub hex_digit : ℕ → ℕ
hex_digit d = if ltb d 10 then b'0' + d else 87 + d

abbrev pub backslashed : ℕ → Text
backslashed c = b'\\' ∷ c ∷ []

-- json.encoder.py_encode_basestring, for one character.
unfoldable pub escape_char : ℕ → Text
escape_char c =
    if c =ℕ b'"'
    then backslashed b'"'
    else if c =ℕ b'\\'
    then backslashed b'\\'
    else if c =ℕ 8
    then backslashed b'b'
    else if c =ℕ 9
    then backslashed b't'
    else if c =ℕ 10
    then backslashed b'n'
    else if c =ℕ 12
    then backslashed b'f'
    else if c =ℕ 13
    then backslashed b'r'
    else if ltb c 32
    then b'\\' ∷ b'u' ∷ b'0' ∷ b'0' ∷ hex_digit (c / 16) ∷ hex_digit (c % 16) ∷ []
    else c ∷ []

unfoldable pub escape : Text → Text
unfolding escape_char
escape [] = []
escape (c ∷ s) = escape_char c ++ escape s

unfoldable pub quote : Text → Text
unfolding escape
quote s = b'"' ∷ (escape s ++ b'"' ∷ [])

-- The decimal digits; there are no more of them than the fuel.
unfoldable pub digits : ℕ → ℕ → Text
digits zero n = []
digits (suc f) n =
    let high = digits f (n / 10) in
    if ltb n 10 then (b'0' + n) ∷ [] else high ++ (b'0' + n % 10) ∷ []

unfoldable pub decimal : ℕ → Text
unfolding digits
decimal n = digits (suc n) n

-- int.__repr__, without Python's limit on the number of digits.
unfoldable pub int_repr : ℤ → Text
unfolding decimal
int_repr (pos n) = decimal n
int_repr (negsuc n) = b'-' ∷ decimal (suc n)

abbrev pub separator : Bool → Text
separator first = if first then [] else b',' ∷ []

-- `float_repr` is float.__repr__.
module _ {F : Type 0} (float_repr : F → Text) where
  unfoldable pub render_atom : Atom F → Text
  unfolding int_repr quote
  render_atom null = codes "null"
  render_atom (bool true) = codes "true"
  render_atom (bool false) = codes "false"
  render_atom (int n) = int_repr n
  render_atom (float x) = float_repr x
  render_atom (text s) = quote s

  unfoldable mutual
    unfolding render_atom

    pub render : Plain F → Text
    render (atom a) = render_atom a
    render (list xs) = b'[' ∷ render_items true xs
    render (dict ms) = b'{' ∷ render_members true ms

    pub render_items : Bool → Items F → Text
    render_items first nil = b']' ∷ []
    render_items first (cons v xs) = separator first ++ (render v ++ render_items false xs)

    pub render_members : Bool → Members F → Text
    render_members first end = b'}' ∷ []
    render_members first (member k v ms) =
        separator first ++ (quote k ++ b':' ∷ (render v ++ render_members false ms))

  unfoldable pub canonical_json : {K : Type 0} → (K → Text) → Value F K → Text
  unfolding render arrange to_plain
  canonical_json str v = render (arrange (to_plain str v))
