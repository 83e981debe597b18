-- ===== src/Store/Laws.antt =====
-- What follows for every table: a row that is added is there, and the others stay.
use connect_governance.Prelude.{
  ℕ, String, ◌≡◌, refl, sym, ◌∙◌, ap, Bool, true, false, ◌||◌, none, some, List, [], ◌∷◌, ◌++◌,
  arith, ◌==◌, ◌=ℕ◌, eq_iff, any, Merge, Bool-cases, Option-cases, inl, inr, if◌then◌else◌,
}
use connect_governance.Schema.{key_free}
use connect_governance.Store.{Table, find}

-- A merge with the empty list is the list.
pub Merge-nil : {A : Type 0} {xs zs : List A} → Merge [] xs zs → zs ≡ xs
Merge-nil Merge.done = refl
Merge-nil (Merge.right {y = y} m) = ap (λ l. y ∷ l) (Merge-nil m)

module _ {A : Type 0} where
  -- One element merged in stands between two parts.
  pub Merge-one :
      {xs zs : List A} (r : A)
      → Merge (r ∷ []) xs zs
      → (before after : List A) × (xs ≡ before ++ after) × (zs ≡ before ++ r ∷ after)
  Merge-one r (Merge.left {ys = ys} m) = ([], ys, refl, ap (λ l. r ∷ l) (Merge-nil m))
  Merge-one r (Merge.right {y = y} m) =
      let (before, after, e, e') = Merge-one r m in
      (y ∷ before, after, ap (λ l. y ∷ l) e, ap (λ l. y ∷ l) e')

  pub any-append : (p : A → Bool) (xs ys : List A) → any p (xs ++ ys) ≡ (any p xs || any p ys)
  any-append p [] ys = refl
  any-append p (x ∷ xs) ys = ground (arith, any-append p xs ys)

module _ {K R : Type 0} (same : K → K → Bool) (key : R → K) where
  pub find-append :
      (xs ys : List R) (k : K)
      → find same key (xs ++ ys) k
        ≡ elim (find same key xs k) [ none ↦ find same key ys k | some r ↦ some r ]
  find-append [] ys k = refl
  find-append (x ∷ xs) ys k = ground (arith, find-append xs ys k)

  -- A key that no row has is not found.
  pub find-of_free :
      (rows : List R) (r : R) → key_free same key rows r ≡ true → find same key rows (key r) ≡ none
  find-of_free [] r h = refl
  find-of_free (x ∷ rows) r h = ground (arith, find-of_free rows r)

  module _ (same_eq : (a b : K) → same a b ≡ true → a ≡ b) where
    same_other : (y r : R) (k : K) → same (key r) k ≡ true → same (key y) k ≡ same (key y) (key r)
    same_other y r k h = ap (λ a. same (key y) a) (sym (same_eq (key r) k h))

    -- Lookup after a row with a free key is merged in.
    pub find-Merge :
        {xs zs : List R} (r : R) (k : K)
        → Merge (r ∷ []) xs zs
        → key_free same key xs r ≡ true
        → find same key zs k ≡ (if same (key r) k then some r else find same key xs k)
    find-Merge r k (Merge.left {zs = zs} m) free = rw (Merge-nil m)
    find-Merge r k (Merge.right {y = y} {xs = xs} {ys = ys} {zs = zs} m) free =
        ground (arith, find-Merge {xs = ys} {zs = zs} r k m, same_other y r k)

module _ {K R : Type 0} {same : K → K → Bool} {key : R → K} {admits : List R → R → Bool}
    (table : Table same key admits) where
  -- A row that the constraints admit is added.
  pub insert_admitted :
      (r : R) (s : table.State)
      → admits (table.scan s) r ≡ true
      → (t : table.State) × (table.insert r s ≡ some t)
  insert_admitted r s h = elim (Option-cases (table.insert r s)) [
    | inl e ↦ cc (table.insert-none r s e)
    | inr w ↦ w
  ]

  -- A row that they do not admit is refused.
  pub insert_refused :
      (r : R) (s : table.State) → admits (table.scan s) r ≡ false → table.insert r s ≡ none
  insert_refused r s h = elim (Option-cases (table.insert r s)) [
    | inl e ↦ e
    | inr (t, e) ↦ cc (table.insert-some r s e).0
  ]

-- The tests on keys, and on texts, that the tables use decide equality.
pub text_same : (a b : String) → (a == b) ≡ true → a ≡ b
text_same a b = (eq_iff a b).0

pub number_same : (a b : ℕ) → (a =ℕ b) ≡ true → a ≡ b
number_same a b h = ground arith

-- Tables whose constraints admit no second row of a key.
module _ {K R : Type 0} {same : K → K → Bool} {key : R → K} {admits : List R → R → Bool}
    (table : Table same key admits) (same_eq : (a b : K) → same a b ≡ true → a ≡ b)
    (unique : (rows : List R) (r : R)
      → admits rows r ≡ true
      → key_free same key rows r ≡ true) where
  pub get-insert :
      (r : R) (s : table.State) {t : table.State} (k : K)
      → table.insert r s ≡ some t
      → table.get t k ≡ (if same (key r) k then some r else table.get s k)
  get-insert r s {t} k e =
      let (admitted, merged) = table.insert-some r s e in
      rw (table.get-scan t k, table.get-scan s k)
        (find-Merge same key same_eq r k merged (unique (table.scan s) r admitted))

  -- A row that is there is found under its key as before, whatever is added.
  pub get-insert_old :
      (r x : R) (s : table.State) {t : table.State} (k : K)
      → table.insert r s ≡ some t
      → table.get s k ≡ some x
      → table.get t k ≡ some x
  get-insert_old r x s {t} k e found =
      let (admitted, merged) = table.insert-some r s e in
      let free = find-of_free same key (table.scan s) r (unique (table.scan s) r admitted) in
      elim (Bool-cases (same (key r) k)) [
        | inl e' ↦ cc (
          free,
          table.get-scan s k,
          found,
          ap (λ a. find same key (table.scan s) a) (same_eq (key r) k e'),
        )
        | inr other ↦ get-insert r s k e ∙ rw other found
      ]

  -- The row that was added is found.
  pub get-insert_self :
      (r : R) (s : table.State) {t : table.State}
      → same (key r) (key r) ≡ true
      → table.insert r s ≡ some t
      → table.get t (key r) ≡ some r
  get-insert_self r s refl_key e = get-insert r s (key r) e ∙ rw refl_key

-- A key under which nothing is found is free.
pub free-of_find :
    {K R : Type 0} (same : K → K → Bool) (key : R → K) (rows : List R) (k : K)
    → find same key rows k ≡ none
    → any (λ x. same (key x) k) rows ≡ false
free-of_find same key [] k h = refl
free-of_find same key (x ∷ rows) k h = ground (arith, free-of_find same key rows k)

-- One row merged into no rows.
pub Merge-single : {A : Type 0} {zs : List A} (r : A) → Merge (r ∷ []) [] zs → zs ≡ r ∷ []
Merge-single r (Merge.left m) = ap (λ l. r ∷ l) (Merge-nil m)
