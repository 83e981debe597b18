-- ===== src/Canonical/Order.antt =====
-- The order of the keys, and inserting two of them in either order.
use connect_governance.Prelude.{
  ◌≡◌, refl, sym, ◌∙◌, inl, inr, true, false, [], ◌∷◌, arith, Bool-cases,
}
use connect_governance.Canonical.{Text, eqb, Plain, Members, end, member}
use connect_governance.Canonical.Dumps.{text_leb, insert}

text_leb_trans : (s t u : Text) → text_leb s t ≡ true → text_leb t u ≡ true → text_leb s u ≡ true
unfolding text_leb
text_leb_trans [] t u h g = refl
text_leb_trans (a ∷ s) [] u h g = cc
text_leb_trans (a ∷ s) (b ∷ t) [] h g = cc
text_leb_trans (a ∷ s) (b ∷ t) (c ∷ u) h g = ground (arith, text_leb_trans s t u)

text_leb_total : (s t : Text) → text_leb s t ≡ false → text_leb t s ≡ true
unfolding text_leb
text_leb_total [] t h = cc
text_leb_total (a ∷ s) [] h = refl
text_leb_total (a ∷ s) (b ∷ t) h = ground (arith, text_leb_total s t)

text_leb_antisymm : (s t : Text) → text_leb s t ≡ true → text_leb t s ≡ true → eqb s t ≡ true
unfolding text_leb
text_leb_antisymm [] [] h g = refl
text_leb_antisymm [] (b ∷ t) h g = cc
text_leb_antisymm (a ∷ s) [] h g = cc
text_leb_antisymm (a ∷ s) (b ∷ t) h g = ground (arith, text_leb_antisymm s t)

insert_insert_le :
    {F : Type 0} (k j : Text) (v w : Plain F) (ms : Members F)
    → text_leb k j ≡ true
    → text_leb j k ≡ false
    → insert k v (insert j w ms) ≡ insert j w (insert k v ms)
unfolding insert
insert_insert_le k j v w end kj jk = rw (kj, jk) refl
insert_insert_le k j v w (member i x ms) kj jk = elim (Bool-cases (text_leb k i)) [
  | inl ki ↦ elim (Bool-cases (text_leb j i)) [
    | inl ji ↦ simp (ki, ji, kj, jk)
    | inr ji ↦ simp (ki, ji, kj, jk)
  ]
  | inr ki ↦ elim (Bool-cases (text_leb j i)) [
    | inl ji ↦ cc (sym ki ∙ text_leb_trans k j i kj ji)
    | inr ji ↦ simp (ki, ji, insert_insert_le k j v w ms kj jk)
  ]
]

-- Items with two keys go to the same places in either order.
pub insert_comm :
    {F : Type 0} (k j : Text) (v w : Plain F) (ms : Members F)
    → eqb k j ≡ false
    → insert k v (insert j w ms) ≡ insert j w (insert k v ms)
insert_comm k j v w ms differ = elim (Bool-cases (text_leb k j)) [
  | inl kj ↦ elim (Bool-cases (text_leb j k)) [
    | inl jk ↦ cc (sym differ ∙ text_leb_antisymm k j kj jk)
    | inr jk ↦ insert_insert_le k j v w ms kj jk
  ]
  | inr kj ↦ sym (insert_insert_le j k w v ms (text_leb_total k j kj) kj)
]
