-- ===== src/Canonical/Unique.antt =====
-- src/connect_governance_kernel/canonical.py: one text for every order of the keys, and one value for
-- every text.
use connect_governance.Prelude.{
  ◌≡◌, ◌↔◌, refl, sym, ap, subst, ◌∙◌, false, some, inl, inr, Bool-cases, ◌||◌, arith,
}
use connect_governance.Canonical.{
  Text, Atom, Plain, atom, list, dict, Items, nil, cons, Members, end, member, Value, to_plain, eqb,
}
use connect_governance.Canonical.Keys.{
  eqb_comm, has_key, IsPlain, IsPlainItems, IsPlainMembers, to_plain-IsPlain,
}
use connect_governance.Canonical.Dumps.{
  text_leb, insert, arrange, arrange_items, arrange_members, render, canonical_json,
}
use connect_governance.Canonical.Loads.{FloatText, loads}
use connect_governance.Canonical.Order.{insert_comm}
use connect_governance.Canonical.RoundTrip.Values.{loads-render}

-- The same value up to the order of the keys, at any level: what `==` is on dicts.
mutual
  pub data Same {F : Type 0} : Plain F → Plain F → Type 0 where
    same_atom : {a : Atom F} → Same (atom a) (atom a)
    through : {u v w : Plain F} → Same u v → Same v w → Same u w
    same_list : {xs ys : Items F} → SameItems xs ys → Same (list xs) (list ys)
    same_dict : {ms ns : Members F} → SameMembers ms ns → Same (dict ms) (dict ns)

  pub data SameItems {F : Type 0} : Items F → Items F → Type 0 where
    same_nil : SameItems nil nil
    same_cons :
        {v w : Plain F} {xs ys : Items F}
        → Same v w
        → SameItems xs ys
        → SameItems (cons v xs) (cons w ys)

  pub data SameMembers {F : Type 0} : Members F → Members F → Type 0 where
    same_end : SameMembers end end
    same_member :
        {k : Text} {v w : Plain F} {ms ns : Members F}
        → Same v w
        → SameMembers ms ns
        → SameMembers (member k v ms) (member k w ns)
    swapped :
        {j k : Text} {v w : Plain F} {ms : Members F}
        → eqb j k ≡ false
        → SameMembers (member j v (member k w ms)) (member k w (member j v ms))
    after : {ms ns os : Members F} → SameMembers ms ns → SameMembers ns os → SameMembers ms os

-- Arranging forgets the order of the keys.
Same-arrange : {F : Type 0} {v w : Plain F} → Same v w → arrange v ≡ arrange w
unfolding arrange
Same-arrange s =
    elim s
      as (λ v w s. arrange v ≡ arrange w) (λ xs ys s. arrange_items xs ≡ arrange_items ys) (λ ms ns
          s.
        arrange_members ms ≡ arrange_members ns) [
          | same_atom ↦ refl
          | through (a → ih) (b → ihs) ↦ ih ∙ ihs
          | same_list (xs → ih) ↦ ap list ih
          | same_dict (ms → ih) ↦ ap dict ih
          | same_nil ↦ refl
          | same_cons (v → ih) (xs → ihs) ↦ cc
          | same_end ↦ refl
          | same_member {k} (v → ih) (ms → ihs) ↦ cc
          | swapped {j} {k} {v} {w} {ms} e ↦
              insert_comm j k (arrange v) (arrange w) (arrange_members ms) e
          | after (a → ih) (b → ihs) ↦ ih ∙ ihs
        ]

Same-sym : {F : Type 0} {v w : Plain F} → Same v w → Same w v
Same-sym s =
    elim s as (λ v w s. Same w v) (λ xs ys s. SameItems ys xs) (λ ms ns s. SameMembers ns ms) [
      | same_atom ↦ same_atom
      | through (a → ih) (b → ihs) ↦ through ihs ih
      | same_list (xs → ih) ↦ same_list ih
      | same_dict (ms → ih) ↦ same_dict ih
      | same_nil ↦ same_nil
      | same_cons (v → ih) (xs → ihs) ↦ same_cons ih ihs
      | same_end ↦ same_end
      | same_member (v → ih) (ms → ihs) ↦ same_member ih ihs
      | swapped {j} {k} e ↦ swapped (eqb_comm k j ∙ e)
      | after (a → ih) (b → ihs) ↦ after ihs ih
    ]

Same-refl : {F : Type 0} (v : Plain F) → Same v v
Same-refl v = elim v as (λ v. Same v v) (λ xs. SameItems xs xs) (λ ms. SameMembers ms ms) [
  | atom a ↦ same_atom
  | list (xs → ih) ↦ same_list ih
  | dict (ms → ih) ↦ same_dict ih
  | nil ↦ same_nil
  | cons (v → ih) (xs → ihs) ↦ same_cons ih ihs
  | end ↦ same_end
  | member k (v → ih) (ms → ihs) ↦ same_member ih ihs
]

module _ {F : Type 0} where
  SameMembers-refl : (ms : Members F) → SameMembers ms ms
  SameMembers-refl end = same_end
  SameMembers-refl (member k v ms) = same_member (Same-refl v) (SameMembers-refl ms)

  SameMembers-insert :
      (k : Text) (v : Plain F) (ms : Members F)
      → has_key k ms ≡ false
      → SameMembers (member k v ms) (insert k v ms)
  unfolding insert
  SameMembers-insert k v end h = same_member (Same-refl v) same_end
  SameMembers-insert k v (member j w ms) h = elim (Bool-cases (text_leb k j)) [
    | inl e ↦ rw e (same_member (Same-refl v) (same_member (Same-refl w) (SameMembers-refl ms)))
    | inr e ↦ rw e (
        after (swapped (eqb_comm k j ∙ ground arith))
          (same_member (Same-refl w) (SameMembers-insert k v ms (ground arith))))
  ]

  has_key-insert :
      (j k : Text) (v : Plain F) (ms : Members F)
      → has_key j (insert k v ms) ≡ (eqb k j || has_key j ms)
  unfolding insert
  has_key-insert j k v end = refl
  has_key-insert j k v (member i w ms) = elim (Bool-cases (text_leb k i)) [
    | inl e ↦ rw e refl
    | inr e ↦ rw e (ground (arith, has_key-insert j k v ms))
  ]

  has_key-arrange_members :
      (j : Text) (ms : Members F) → has_key j (arrange_members ms) ≡ has_key j ms
  unfolding arrange
  has_key-arrange_members j end = refl
  has_key-arrange_members j (member k v ms) =
      has_key-insert j k (arrange v) (arrange_members ms)
      ∙ ap (λ x. eqb k j || x) (has_key-arrange_members j ms)

  -- Arranging moves keys only.
  pub Same-arranged : (v : Plain F) → IsPlain v → Same v (arrange v)
  unfolding arrange IsPlain
  Same-arranged v =
      elim v
        as (λ v. IsPlain v → Same v (arrange v)) (λ xs.
          IsPlainItems xs → SameItems xs (arrange_items xs)) (λ ms.
            IsPlainMembers ms → SameMembers ms (arrange_members ms)) [
              | atom a ↦ λ p. same_atom
              | list (xs → ih) ↦ λ p. same_list (ih p)
              | dict (ms → ih) ↦ λ p. same_dict (ih p)
              | nil ↦ λ p. same_nil
              | cons (v → ih) (xs → ihs) ↦ λ (p, ps). same_cons (ih p) (ihs ps)
              | end ↦ λ p. same_end
              | member k (v → ih) (ms → ihs) ↦ λ (fresh, p, ps).
                  after (same_member (ih p) (ihs ps)) (
                    SameMembers-insert k (arrange v) (arrange_members ms)
                      (has_key-arrange_members k ms ∙ fresh))
            ]

  -- Values that are arranged alike are the same up to the order of keys.
  pub Same-of_arrange :
      {K : Type 0} (str : K → Text) (v w : Value F K)
      → arrange (to_plain str v) ≡ arrange (to_plain str w)
      → Same (to_plain str v) (to_plain str w)
  Same-of_arrange str v w h = through (Same-arranged (to_plain str v) (to_plain-IsPlain str v)) (
      Same-sym (
        subst (λ x. Same (to_plain str w) x) (sym h)
          (Same-arranged (to_plain str w) (to_plain-IsPlain str w))))

  module _ (floats : FloatText F) {K : Type 0} (str : K → Text) where
    -- `json.loads` reads the text that `canonical_json` returns for any value, and what it reads is what
    -- `to_plain` made of the value, up to the order of the keys. No float is infinite or a NaN, and the
    -- text of a float reads as that float.
    pub loads-canonical_json :
        (v : Value F K)
        → (p : Plain F) × (loads floats (canonical_json floats.repr str v) ≡ some p)
          × Same p (to_plain str v)
    unfolding canonical_json
    loads-canonical_json v = (
      arrange (to_plain str v),
      loads-render floats (arrange (to_plain str v)),
      Same-sym (Same-arranged (to_plain str v) (to_plain-IsPlain str v)),
    )

    -- Values with one text are arranged alike.
    pub arrange-canonical_json :
        (v w : Value F K)
        → canonical_json floats.repr str v ≡ canonical_json floats.repr str w
        → arrange (to_plain str v) ≡ arrange (to_plain str w)
    unfolding canonical_json
    arrange-canonical_json v w h =
        let p = to_plain str v in
        let q = to_plain str w in
        let read : some (arrange p) ≡ some (arrange q) =
          sym (loads-render floats (arrange p))
          ∙ ap (loads floats) h
          ∙ loads-render floats (arrange q) in
        cc

    -- Two values have one canonical text if and only if they are the same JSON value: equal up to the
    -- order of the keys of their dicts, at any level, the order of lists included. No float is infinite
    -- or a NaN, and the text of a float reads as that float.
    pub canonical_json-iff-Same :
        (v w : Value F K)
        → (canonical_json floats.repr str v ≡ canonical_json floats.repr str w)
          ↔ Same (to_plain str v) (to_plain str w)
    unfolding canonical_json
    canonical_json-iff-Same v w = (
      λ h. Same-of_arrange str v w (arrange-canonical_json v w h),
      λ s. ap (render floats.repr) (Same-arrange s),
    )
