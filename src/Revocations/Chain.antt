-- ===== src/Revocations/Chain.antt =====
-- An issuer's lists as one line of descent, and the head that `latest_revocation_list` finds.
use connect_governance.Prelude.{
  String, ◌≡◌, refl, sym, ap, ◌∙◌, Bool, true, false, not, ◌&&◌, ◌||◌, Option, none, some, List, [],
  ◌∷◌, arith, filter, any, all, elem, ◌==◌, eq_comm, eq_refl, Merge, ok, Bool-cases, inl, inr,
}
use connect_governance.Schema.{RevocationListRecord}
use connect_governance.Store.Laws.{Merge-nil}
use connect_governance.Revocations.{superseded, chain_heads, only_head, list_id_of}

-- Lists recorded one after another, each naming the one before; the first index is the last one.
-- They stand in any order.
pub data Chain : Option RevocationListRecord → List RevocationListRecord → Type 0 where
  unstarted : Chain none []
  extended :
      {head : Option RevocationListRecord} {xs zs : List RevocationListRecord}
      (r : RevocationListRecord)
      → Chain head xs
      → r.supersedes ≡ list_id_of head
      → any (λ x. x.list_id == r.list_id) xs ≡ false
      → Merge (r ∷ []) xs zs
      → Chain (some r) zs

module _ {A : Type 0} (p : A → Bool) where
  pub any-Merge : {xs zs : List A} (r : A) → Merge (r ∷ []) xs zs → any p zs ≡ (p r || any p xs)
  any-Merge r (Merge.left m) = ap (λ l. p r || any p l) (Merge-nil m)
  any-Merge r (Merge.right {y = y} m) = ground (arith, any-Merge r m)

  all-Merge : {xs zs : List A} (r : A) → Merge (r ∷ []) xs zs → all p zs ≡ (p r && all p xs)
  all-Merge r (Merge.left m) = ap (λ l. p r && all p l) (Merge-nil m)
  all-Merge r (Merge.right {y = y} m) = ground (arith, all-Merge r m)

  filter_nothing : (xs : List A) → all (λ x. not (p x)) xs ≡ true → filter p xs ≡ []
  filter_nothing [] h = refl
  filter_nothing (x ∷ xs) h = ground (arith, filter_nothing xs)

  filter-Merge_nil : {xs zs : List A} → Merge [] xs zs → Merge [] (filter p xs) (filter p zs)
  filter-Merge_nil Merge.done = Merge.done
  filter-Merge_nil (Merge.right {y = y} m) = elim (Bool-cases (p y)) [
    | inl e ↦ rw e (Merge.right (filter-Merge_nil m))
    | inr e ↦ rw e (filter-Merge_nil m)
  ]

  -- An element that passes a filter is merged into what passes.
  pub filter-Merge_keep :
      (r : A) {xs zs : List A}
      → p r ≡ true
      → Merge (r ∷ []) xs zs
      → Merge (r ∷ []) (filter p xs) (filter p zs)
  filter-Merge_keep r h (Merge.left m) = rw h (Merge.left (filter-Merge_nil m))
  filter-Merge_keep r h (Merge.right {y = y} m) = elim (Bool-cases (p y)) [
    | inl e ↦ rw e (Merge.right (filter-Merge_keep r h m))
    | inr e ↦ rw e (filter-Merge_keep r h m)
  ]

  -- One that does not changes nothing.
  pub filter-Merge_drop :
      {xs zs : List A} (r : A) → p r ≡ false → Merge (r ∷ []) xs zs → filter p zs ≡ filter p xs
  filter-Merge_drop r h (Merge.left m) = rw h (ap (λ l. filter p l) (Merge-nil m))
  filter-Merge_drop r h (Merge.right {y = y} m) = ground (arith, filter-Merge_drop r h m)

  filter-Merge_only :
      {xs zs : List A} (r : A)
      → p r ≡ true
      → all (λ x. not (p x)) xs ≡ true
      → Merge (r ∷ []) xs zs
      → filter p zs ≡ r ∷ []
  filter-Merge_only r h others (Merge.left {ys = ys} m) =
      rw h (rw (Merge-nil m) (ap (λ l. r ∷ l) (filter_nothing ys others)))
  filter-Merge_only r h others (Merge.right {y = y} m) = ground (arith, filter-Merge_only r h _ m)

-- A list that some row of `rows` names as superseded.
abbrev names : String → RevocationListRecord → Bool
names k r = elem k (superseded (r ∷ []))

or_false : (a b : Bool) → (a || b) ≡ (a || false || b)
or_false a b = ground arith

elem-superseded_cons :
    (k : String) (r : RevocationListRecord) (rows : List RevocationListRecord) (o : Option String)
    → r.supersedes ≡ o
    → elem k (superseded (r ∷ rows)) ≡ (names k r || elem k (superseded rows))
elem-superseded_cons k r rows none e = rw e
elem-superseded_cons k r rows (some j) e = rw e (or_false (k == j) (elem k (superseded rows)))

elem-superseded :
    (k : String) (rows : List RevocationListRecord)
    → elem k (superseded rows) ≡ any (λ r. names k r) rows
elem-superseded k [] = refl
elem-superseded k (r ∷ rows) =
    elem-superseded_cons k r rows r.supersedes refl
    ∙ ap (λ b. names k r || b) (elem-superseded k rows)

-- Some list has the id.
abbrev has_id : String → List RevocationListRecord → Bool
has_id k rows = any (λ x. x.list_id == k) rows

abbrev is_head : Option RevocationListRecord → String → Bool
is_head none k = false
is_head (some r) k = r.list_id == k

names-is_head :
    (k : String) (r : RevocationListRecord) (head : Option RevocationListRecord)
    → r.supersedes ≡ list_id_of head
    → names k r ≡ is_head head k
names-is_head k r none e = rw e
names-is_head k r (some h) e = rw e (ground (arith, eq_comm k h.list_id))

-- What a chain keeps: every superseded id and the head's are those of lists that are there, and
-- every list but the head is superseded.
record Linked (head : Option RevocationListRecord) (rows : List RevocationListRecord) : Type 0 where
  pub closed : (k : String) → elem k (superseded rows) ≡ true → has_id k rows ≡ true
  pub headed : (k : String) → is_head head k ≡ true → has_id k rows ≡ true
  pub covered : all (λ y. elem y.list_id (superseded rows) || is_head head y.list_id) rows ≡ true

module _ {head : Option RevocationListRecord} {xs zs : List RevocationListRecord}
    (r : RevocationListRecord) (linked : Linked head xs) (next : r.supersedes ≡ list_id_of head)
    (fresh : has_id r.list_id xs ≡ false) (m : Merge (r ∷ []) xs zs) where
  superseded-Merge :
      (k : String) → elem k (superseded zs) ≡ (is_head head k || elem k (superseded xs))
  superseded-Merge k =
      elem-superseded k zs
      ∙ any-Merge (names k) r m
      ∙ ap (λ b. b || any (names k) xs) (names-is_head k r head next)
      ∙ ap (λ b. is_head head k || b) (sym (elem-superseded k xs))

  -- The new list is not superseded, and every older one is.
  new_list_heads : not (elem r.list_id (superseded zs)) ≡ true
  new_list_heads =
      rw (superseded-Merge r.list_id)
        (ground (arith, linked.closed r.list_id, linked.headed r.list_id))

  all-superseded :
      (ys : List RevocationListRecord)
      → all (λ y. elem y.list_id (superseded xs) || is_head head y.list_id) ys ≡ true
      → all (λ y. elem y.list_id (superseded zs)) ys ≡ true
  all-superseded [] h = refl
  all-superseded (y ∷ ys) h = rw (superseded-Merge y.list_id) (ground (arith, all-superseded ys))

  chain_heads-Merge : chain_heads zs ≡ r ∷ []
  chain_heads-Merge =
      filter-Merge_only (λ x. not (elem x.list_id (superseded zs))) r new_list_heads
        (not_not xs (all-superseded xs linked.covered)) m
    where
      not_not :
          (ys : List RevocationListRecord)
          → all (λ y. elem y.list_id (superseded zs)) ys ≡ true
          → all (λ y. not (not (elem y.list_id (superseded zs)))) ys ≡ true
      not_not [] h = refl
      not_not (y ∷ ys) h = ground (arith, not_not ys)

  Linked-Merge : Linked (some r) zs
  Linked-Merge = record {
    closed = λ k e.
        let e' = sym (superseded-Merge k) ∙ e in
        rw (has_id-Merge k) (ground (arith, linked.closed k, linked.headed k));
    headed = λ k e. rw (has_id-Merge k) (ground arith);
    covered =
        all-Merge (λ y. elem y.list_id (superseded zs) || is_head (some r) y.list_id) r m
        ∙ (rw (eq_refl r.list_id) (ground (arith, or_head xs (all-superseded xs linked.covered))));
  }
    where
      has_id-Merge : (k : String) → has_id k zs ≡ (r.list_id == k || has_id k xs)
      has_id-Merge k = any-Merge (λ x. x.list_id == k) r m

      or_head :
          (ys : List RevocationListRecord)
          → all (λ y. elem y.list_id (superseded zs)) ys ≡ true
          → all (λ y. elem y.list_id (superseded zs) || is_head (some r) y.list_id) ys ≡ true
      or_head [] h = refl
      or_head (y ∷ ys) h = ground (arith, or_head ys)

Chain-Linked :
    {head : Option RevocationListRecord} {rows : List RevocationListRecord}
    → Chain head rows
    → Linked head rows
Chain-Linked unstarted = record { closed = λ k e. e; headed = λ k e. e; covered = refl }
Chain-Linked (extended r c next fresh m) = Linked-Merge r (Chain-Linked c) next fresh m

-- The head that is looked for is the list that was recorded last.
pub only_head-Chain :
    {head : Option RevocationListRecord} {rows : List RevocationListRecord}
    → Chain head rows
    → only_head (chain_heads rows) ≡ ok head
only_head-Chain unstarted = refl
only_head-Chain (extended r c next fresh m) =
    rw (chain_heads-Merge r (Chain-Linked c) next fresh m) refl
