-- ===== src/Canonical/RoundTrip/Values.antt =====
-- `loads` reads back what `render` writes, whatever follows.
use Prim.Native.Nat.{◌*◌}
use connect_governance.Prelude.{
  ℕ, ◌≡◌, ◌<◌, refl, ap, ◌∙◌, zero, suc, ◌+◌, Bool, true, false, [], ◌∷◌, ◌++◌, append-nil,
  append_assoc, arith, some,
}
use connect_governance.Base64.{length}
use connect_governance.Canonical.{
  Text, Plain, atom, list, dict, Items, nil, cons, Members, end, member,
}
use connect_governance.Canonical.Dumps.{quote, separator, render, render_items, render_members}
use connect_governance.Canonical.Loads.{FloatText, read_value, read_items, read_members, loads}
use connect_governance.Canonical.Numbers.{ends}
use connect_governance.Canonical.RoundTrip.{
  length-append, starts-render, starts-quote, read_separator_lem, read_key-quote, length-render_pos,
  ends-render_items, ends-render_members, read_value-render_atom,
}

ruleset lengths = (arith, length-append)

append_append : (a b c d : Text) → (a ++ (b ++ c)) ++ d ≡ a ++ (b ++ (c ++ d))
append_append a b c d = append_assoc a (b ++ c) d ∙ ap (λ x. a ++ x) (append_assoc b c d)

-- A number that is more than another is a successor.
above : {n : ℕ} (P : ℕ → Type 0) → ((f : ℕ) → n < suc f → P (suc f)) → (f : ℕ) → n < f → P f
above P k zero h = absurd (omega arith)
above P k (suc f) h = k f h

module _ {F : Type 0} (floats : FloatText F) where
  -- With the fuel that its length asks for, a value is read off any text that does not go on as a
  -- number does; the items and the members of a container bring their bracket along.
  abbrev ReadsValue : Plain F → Type 0
  ReadsValue v =
      (rest : Text)
      → ends rest ≡ true
      → (f : ℕ) → 2 * length (render floats.repr v) < f
      → read_value floats f (render floats.repr v ++ rest) ≡ some (v, rest)

  abbrev ReadsItems : Items F → Type 0
  ReadsItems xs =
      (first : Bool) (rest : Text) (f : ℕ)
      → 2 * length (render_items floats.repr first xs) + 1 < f
      → read_items floats f first (render_items floats.repr first xs ++ rest) ≡ some (xs, rest)

  abbrev ReadsMembers : Members F → Type 0
  ReadsMembers ms =
      (first : Bool) (rest : Text) (f : ℕ)
      → 2 * length (render_members floats.repr first ms) + 1 < f
      → read_members floats f first (render_members floats.repr first ms ++ rest) ≡ some (ms, rest)

  read_items-cons :
      (v : Plain F) (xs : Items F) → ReadsValue v → ReadsItems xs → ReadsItems (cons v xs)
  unfolding read_value render
  read_items-cons v xs rv rxs first rest = above _ λ f h.
      let behind = render_items floats.repr false xs ++ rest in
      ap (read_items floats (suc f) first) (
        append_append (separator first) (render floats.repr v) (render_items floats.repr false xs)
          rest)
      ∙ rw (starts-render floats first v behind) (
          rw (read_separator_lem floats first (render floats.repr v ++ behind)) (
            rw (rv behind (ends-render_items floats xs rest) f (omega (lengths, h)))
              (rw (rxs false rest f (omega (lengths, length-render_pos floats v, h))) refl)))

  length-render_members :
      (first : Bool) (k : Text) (v : Plain F) (ms : Members F)
      → length (render floats.repr v) + length (render_members floats.repr false ms)
        < length (render_members floats.repr first (member k v ms))
  unfolding render
  length-render_members first k v ms =
      let value = render floats.repr v in
      let behind = render_members floats.repr false ms in
      omega (
        arith,
        length-append (separator first) (quote k ++ b':' ∷ (value ++ behind)),
        length-append (quote k) (b':' ∷ (value ++ behind)),
        length-append value behind,
      )

  read_members-member :
      (k : Text) (v : Plain F) (ms : Members F)
      → ReadsValue v
      → ReadsMembers ms
      → ReadsMembers (member k v ms)
  unfolding read_value render
  read_members-member k v ms rv rms first rest = above _ λ f h.
      let behind = render_members floats.repr false ms ++ rest in
      let longer = length-render_members first k v ms in
      let printed = render floats.repr v ++ behind in
      ap (read_members floats (suc f) first) (
        append_append (separator first) (quote k)
          (b':' ∷ (render floats.repr v ++ render_members floats.repr false ms)) rest
        ∙ ap (λ x. separator first ++ (quote k ++ b':' ∷ x))
            (append_assoc (render floats.repr v) (render_members floats.repr false ms) rest))
      ∙ rw (starts-quote floats first k (b':' ∷ printed)) (
          rw (read_separator_lem floats first (quote k ++ b':' ∷ printed)) (
            rw (read_key-quote floats k printed) (
              rw (rv behind (ends-render_members floats ms rest) f (omega (arith, longer, h))) (
                rw (rms false rest f (omega (arith, length-render_pos floats v, longer, h)))
                  refl))))

  read_value-render : (v : Plain F) → ReadsValue v
  unfolding read_value render
  read_value-render v = elim v as ReadsValue ReadsItems ReadsMembers [
    | atom a ↦ λ rest e. above _ λ f h. read_value-render_atom floats a f rest e
    | list (xs → ih) ↦ λ rest e. above _ λ f h. rw (ih true rest f (omega arith)) refl
    | dict (ms → ih) ↦ λ rest e. above _ λ f h. rw (ih true rest f (omega arith)) refl
    | nil ↦ λ first rest. above _ λ f h. refl
    | cons (w → ih) (xs → ihs) ↦ read_items-cons w xs ih ihs
    | end ↦ λ first rest. above _ λ f h. refl
    | member k (w → ih) (ms → ihs) ↦ read_members-member k w ms ih ihs
  ]

  pub loads-render : (v : Plain F) → loads floats (render floats.repr v) ≡ some v
  unfolding loads
  loads-render v =
      let whole =
        read_value-render v [] refl (2 * length (render floats.repr v) + 1) (omega arith) in
      rw (rw append-nil at whole) refl
