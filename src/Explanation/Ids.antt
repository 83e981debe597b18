-- ===== src/Explanation/Ids.antt =====
-- Lists of condition names: what a merge, a filter and a list of distinct names hold.
use connect_governance.Prelude.{
  String, ◌≡◌, refl, sym, ◌∙◌, subst, Bool, true, false, ◌||◌, List, [], ◌∷◌, ◌++◌, map, filter,
  arith, All, Any, elem, ◌==◌, eq_refl, eq_iff, Merge, Bool-cases, inl, inr,
}
use connect_governance.Kernel.Types.{Constraint}
use connect_governance.Explanation.Stages.{constraint_id}
use connect_governance.Explanation.Grouped.{IsDistinct}

pub elem-append : (x : String) (xs ys : List String) → elem x (xs ++ ys) ≡ (elem x xs || elem x ys)
elem-append x [] ys = refl
elem-append x (y ∷ xs) ys = ground (arith, elem-append x xs ys)

-- What is in neither list was merged from neither.
pub elem-Merge :
    {xs ys zs : List String} (x : String)
    → Merge xs ys zs
    → elem x zs ≡ false
    → (elem x xs ≡ false) × (elem x ys ≡ false)
elem-Merge x Merge.done h = (refl, refl)
elem-Merge x (Merge.left m) h = let (l, r) = elem-Merge x m (ground arith) in (ground arith, r)
elem-Merge x (Merge.right m) h = let (l, r) = elem-Merge x m (ground arith) in (l, ground arith)

module _ {F : Type 0} where
  -- The ids of the constraints that pass the test, in their order.
  abbrev pub ids_of : (Constraint F → Bool) → List (Constraint F) → List String
  ids_of p cs = map constraint_id (filter p cs)

  elem-ids_of :
      (x : String) (p : Constraint F → Bool) (cs : List (Constraint F))
      → elem x (map constraint_id cs) ≡ false
      → elem x (ids_of p cs) ≡ false
  elem-ids_of x p [] h = refl
  elem-ids_of x p (c ∷ cs) h = ground (arith, elem-ids_of x p cs)

  pub elem-constraint_id :
      (c : Constraint F) (cs : List (Constraint F))
      → Any (λ b. b ≡ c) cs
      → elem (constraint_id c) (map constraint_id cs) ≡ true
  elem-constraint_id c [] a = absurd a
  elem-constraint_id c (b ∷ cs) (inl e) = rw e (ground (arith, eq_refl (constraint_id c)))
  elem-constraint_id c (b ∷ cs) (inr a) = ground (arith, elem-constraint_id c cs a)

  pub ids_of-append :
      (p : Constraint F → Bool) (c : Constraint F) (cs : List (Constraint F))
      → ids_of p (c ∷ []) ++ ids_of p cs ≡ ids_of p (c ∷ cs)
  ids_of-append p c cs = ground arith

  -- Of distinct ids, one passes exactly if its constraint does.
  pub ids_of_distinct :
      (p : Constraint F → Bool) (c : Constraint F) (cs : List (Constraint F))
      → IsDistinct (map constraint_id cs)
      → Any (λ b. b ≡ c) cs
      → elem (constraint_id c) (ids_of p cs) ≡ p c
  ids_of_distinct p c [] d a = absurd a
  ids_of_distinct p c (b ∷ cs) (fresh, d) (inl e) =
      let absent = elem-ids_of (constraint_id b) p cs fresh in
      subst (λ x. elem (constraint_id x) (ids_of p (b ∷ cs)) ≡ p x) e
        (ground (arith, eq_refl (constraint_id b), absent))
  ids_of_distinct p c (b ∷ cs) (fresh, d) (inr a) =
      let differs : (constraint_id c == constraint_id b) ≡ false =
        elim (Bool-cases (constraint_id c == constraint_id b)) [
          | inl e ↦
              let same : constraint_id c ≡ constraint_id b =
                (eq_iff (constraint_id c) (constraint_id b)).0 e in
              let present =
                subst (λ x. elem x (map constraint_id cs) ≡ true) same
                  (elem-constraint_id c cs a) in
              cc (sym present ∙ fresh)
          | inr e ↦ e
        ] in
      ground (arith, ids_of_distinct p c cs d a)

-- What is among `ids` is none of what is not.
pub elem-All :
    (x : String) (ids ks : List String)
    → elem x ids ≡ true
    → All (λ k. elem k ids ≡ false) ks
    → elem x ks ≡ false
elem-All x ids [] h a = refl
elem-All x ids (k ∷ ks) h (n, a) = elim (Bool-cases (x == k)) [
  | inl e ↦
      let present = subst (λ y. elem y ids ≡ true) ((eq_iff x k).0 e) h in cc (sym present ∙ n)
  | inr e ↦ rw e (elem-All x ids ks h a)
]

pub map_agree :
    {A B : Type 0} (f g : A → B) (xs : List A)
    → ((x : A) → Any (λ y. y ≡ x) xs → f x ≡ g x)
    → map f xs ≡ map g xs
map_agree f g [] h = refl
map_agree f g (x ∷ xs) h =
    let head : f x ≡ g x = h x (inl refl) in
    let tail : map f xs ≡ map g xs = map_agree f g xs (λ y a. h y (inr a)) in cc
