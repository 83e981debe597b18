-- ===== src/Canonical/RoundTrip.antt =====
-- The pieces that `render` writes, and how the reader takes each of them with any text behind it.
pub mod Values
use Prim.Native.Nat.{◌*◌}
use connect_governance.Prelude.{
  ℕ, ◌≡◌, ◌<◌, refl, sym, ap, ◌∙◌, zero, suc, ◌+◌, Bool, true, false, not, List, [], ◌∷◌, ◌++◌,
  append-nil, append_assoc, ◌=ℕ◌, arith, if◌then◌else◌, inl, inr, Bool-cases, Option, none, some,
  all, any, is_nil,
}
use connect_governance.Base64.{length}
use connect_governance.Canonical.{
  Text, Atom, null, bool, int, float, text, Plain, atom, list, dict, Items, nil, cons, Members, end,
  member,
}
use connect_governance.Canonical.Dumps.{
  int_repr, escape, quote, separator, render_atom, render, render_items, render_members,
}
use connect_governance.Canonical.Loads.{
  is_number, is_point, span, read_int, map_some, bind, FloatText, read_atom, read_scalar,
  read_value, read_items, read_members, read_string, plain, read_separator, read_key, expect,
  starts, tail, finish, loads,
}
use connect_governance.Canonical.Strings.{read_string-escape}
use connect_governance.Canonical.Numbers.{
  IsNumber, ends, span-append, int_repr-IsNumber, read_int-int_repr,
}

pub length-append : (s t : Text) → length (s ++ t) ≡ length s + length t
length-append [] t = omega arith
length-append (c ∷ s) t = omega (arith, length-append s t)

length_pos : (t : Text) → is_nil t ≡ false → 0 < length t
length_pos [] h = cc
length_pos (c ∷ t) h = omega arith

module _ {F : Type 0} (floats : FloatText F) where
  read_value-number :
      (t : Text) (a : Atom F) (f : ℕ) (rest : Text)
      → IsNumber t
      → read_atom floats t ≡ some a
      → ends rest ≡ true
      → read_value floats (suc f) (t ++ rest) ≡ some (atom a, rest)
  unfolding read_value read_scalar
  read_value-number [] a f rest (full, number) h e = cc
  read_value-number (c ∷ t) a f rest (full, number) h e =
      let bracket : (c =ℕ b'[') ≡ false = ground arith in
      let brace : (c =ℕ b'{') ≡ false = ground arith in
      let quotes : (c =ℕ b'"') ≡ false = ground arith in
      let n : (c =ℕ b'n') ≡ false = ground arith in
      let t' : (c =ℕ b't') ≡ false = ground arith in
      let f' : (c =ℕ b'f') ≡ false = ground arith in
      let token = span-append (c ∷ t) rest number e in
      rw bracket (rw brace (rw quotes (rw n (rw t' (rw f' (rw token (rw h refl)))))))

  floats_nil : (t : Text) → any is_point t ≡ true → is_nil t ≡ false
  floats_nil [] h = cc
  floats_nil (c ∷ t) h = refl

  pub read_value-render_atom :
      (a : Atom F) (f : ℕ) (rest : Text)
      → ends rest ≡ true
      → read_value floats (suc f) (render_atom floats.repr a ++ rest) ≡ some (atom a, rest)
  unfolding read_value read_scalar render_atom quote read_atom
  read_value-render_atom null f rest e = refl
  read_value-render_atom (bool true) f rest e = refl
  read_value-render_atom (bool false) f rest e = refl
  read_value-render_atom (int n) f rest e =
      let (number, point) = int_repr-IsNumber n in
      read_value-number (int_repr n) (int n) f rest number
        (rw point (ap (map_some int) (read_int-int_repr n))) e
  read_value-render_atom (float x) f rest e =
      read_value-number (floats.repr x) (float x) f rest
        (floats_nil _ (floats.repr_point x), floats.repr_number x)
        (rw (floats.repr_point x) (ap (map_some float) (floats.parse-repr x))) e
  read_value-render_atom (text s) f rest e =
      let behind = append_assoc (escape s) (b'"' ∷ []) rest ∙ refl in
      ap (map_some _) (ap (read_string plain []) behind ∙ read_string-escape s [] rest)

  -- A value does not begin as a list ends.
  starts-number : (t rest : Text) → IsNumber t → starts floats b']' (t ++ rest) ≡ false
  starts-number [] rest (full, number) = cc
  starts-number (c ∷ t) rest (full, number) = ground arith

  pub starts-render :
      (first : Bool) (v : Plain F) (rest : Text)
      → starts floats b']' (separator first ++ (render floats.repr v ++ rest)) ≡ false
  unfolding render render_atom quote
  starts-render false v rest = refl
  starts-render true (atom null) rest = refl
  starts-render true (atom (bool true)) rest = refl
  starts-render true (atom (bool false)) rest = refl
  starts-render true (atom (int n)) rest = starts-number (int_repr n) rest (int_repr-IsNumber n).0
  starts-render true (atom (float x)) rest =
      starts-number (floats.repr x) rest (floats_nil _ (floats.repr_point x), floats.repr_number x)
  starts-render true (atom (text s)) rest = refl
  starts-render true (list xs) rest = refl
  starts-render true (dict ms) rest = refl

  pub starts-quote :
      (first : Bool) (k rest : Text)
      → starts floats b'}' (separator first ++ (quote k ++ rest)) ≡ false
  unfolding quote
  starts-quote false k rest = refl
  starts-quote true k rest = refl

  pub read_separator_lem :
      (first : Bool) (ts : Text) → read_separator floats first (separator first ++ ts) ≡ some ts
  unfolding expect
  read_separator_lem false ts = refl
  read_separator_lem true ts = refl

  pub read_key-quote : (k rest : Text) → read_key floats (quote k ++ b':' ∷ rest) ≡ some (k, rest)
  unfolding expect quote
  read_key-quote k rest =
      let behind = append_assoc (escape k) (b'"' ∷ []) (b':' ∷ rest) in
      let read : read_string plain [] ((escape k ++ b'"' ∷ []) ++ b':' ∷ rest)
          ≡ some (k, b':' ∷ rest) =
        ap (read_string plain []) behind ∙ read_string-escape k [] (b':' ∷ rest) in
      rw read refl

  pub length-render_pos : (v : Plain F) → 0 < length (render floats.repr v)
  unfolding render render_atom quote
  length-render_pos (atom null) = omega arith
  length-render_pos (atom (bool true)) = omega arith
  length-render_pos (atom (bool false)) = omega arith
  length-render_pos (atom (int n)) = length_pos _ (int_repr-IsNumber n).0.0
  length-render_pos (atom (float x)) = length_pos _ (floats_nil _ (floats.repr_point x))
  length-render_pos (atom (text s)) = omega arith
  length-render_pos (list xs) = omega arith
  length-render_pos (dict ms) = omega arith

  pub ends-render_items :
      (xs : Items F) (rest : Text) → ends (render_items floats.repr false xs ++ rest) ≡ true
  unfolding render
  ends-render_items nil rest = refl
  ends-render_items (cons v xs) rest = refl

  pub ends-render_members :
      (ms : Members F) (rest : Text) → ends (render_members floats.repr false ms ++ rest) ≡ true
  unfolding render
  ends-render_members end rest = refl
  ends-render_members (member k v ms) rest = refl
