-- ===== src/Prelude/Lists.antt =====
-- Lists as the program uses them: `x in xs`, a comprehension with an `if`, `bool(xs)`, a dict.
use Prim.Native.String.{String}
use mathlib.Core.Path.{◌≡◌, refl, sym, ◌∙◌}
use mathlib.Core.Bool.{Bool, true, false, ◌&&◌, ◌||◌, not}
use mathlib.Core.Logic.{◌⊎◌, ◌↔◌, inl, inr}
use mathlib.Core.List.{List, [], ◌∷◌, ◌++◌}
use mathlib.Core.Option.{Option, none, some}
use native.Mathlib.Omega.{arith}
use text.Mathlib.Text.{◌==◌}
use text.Mathlib.TextEquality.{eq_iff}
use connect_governance.Prelude.Tests.{if◌then◌else◌, Bool-cases}

-- `x in xs` for strings.
abbrev pub elem : String → List String → Bool
elem x [] = false
elem x (y ∷ ys) = x == y || elem x ys

-- A dict with string keys, in insertion order; `d.get(k)`.
abbrev pub dict_get {ℓ} : {V : Type ℓ} → String → List (String × V) → Option V
dict_get k [] = none
dict_get k ((j, v) ∷ d) = if j == k then some v else dict_get k d

module _ {ℓ} {A : Type ℓ} where
  -- [x for x in xs if p(x)]
  abbrev pub filter : (A → Bool) → List A → List A
  filter p [] = []
  filter p (x ∷ xs) = if p x then x ∷ filter p xs else filter p xs

  abbrev pub any : (A → Bool) → List A → Bool
  any p [] = false
  any p (x ∷ xs) = p x || any p xs

  abbrev pub all : (A → Bool) → List A → Bool
  all p [] = true
  all p (x ∷ xs) = p x && all p xs

  -- not xs
  abbrev pub is_nil : List A → Bool
  is_nil [] = true
  is_nil (x ∷ xs) = false

  pub is_nil-append : (xs ys : List A) → is_nil (xs ++ ys) ≡ (is_nil xs && is_nil ys)
  is_nil-append [] ys = refl
  is_nil-append (x ∷ xs) ys = refl

  pub is_nil-eq : (xs : List A) → is_nil xs ≡ true → xs ≡ []
  is_nil-eq [] h = refl
  is_nil-eq (x ∷ xs) h = cc

  pub filter-append :
      (p : A → Bool) (xs ys : List A) → filter p (xs ++ ys) ≡ filter p xs ++ filter p ys
  filter-append p [] ys = refl
  filter-append p (x ∷ xs) ys = ground (arith, filter-append p xs ys)

  pub is_nil-filter : (p : A → Bool) (xs : List A) → is_nil (filter p xs) ≡ not (any p xs)
  is_nil-filter p [] = refl
  is_nil-filter p (x ∷ xs) = ground (arith, is_nil-filter p xs)

  pub any-filter : (q p : A → Bool) (xs : List A) → any q (filter p xs) ≡ any (λ x. p x && q x) xs
  any-filter q p [] = refl
  any-filter q p (x ∷ xs) = ground (arith, any-filter q p xs)

  pub filter-filter : (p : A → Bool) (xs : List A) → filter p (filter p xs) ≡ filter p xs
  filter-filter p [] = refl
  filter-filter p (x ∷ xs) = ground (arith, filter-filter p xs)

  -- Every element satisfies `P`, as nested pairs.
  abbrev pub All {κ} : (A → Type κ) → List A → Type κ
  All P [] = Unit
  All P (x ∷ xs) = P x × All P xs

  -- Some element satisfies `P`: which one, and why.
  abbrev pub Any : (A → Type 0) → List A → Type 0
  Any P [] = ⊥
  Any P (x ∷ xs) = P x ⊎ Any P xs

-- What each element's property implies, each element has.
pub All-weaken :
    {A : Type 0} (P Q : A → Type 0) (xs : List A) → ((x : A) → P x → Q x) → All P xs → All Q xs
All-weaken P Q [] f a = tt
All-weaken P Q (x ∷ xs) f (p, a) = (f x p, All-weaken P Q xs f a)

-- The Boolean tests decide the predicates, given that the tests on the elements do.
module _ {ℓ} {A : Type ℓ} (p : A → Bool) (P : A → Type 0) where
  pub all-of_All : ((x : A) → P x → p x ≡ true) → (xs : List A) → All P xs → all p xs ≡ true
  all-of_All h [] w = refl
  all-of_All h (x ∷ xs) (w, ws) = rw (h x w) (all-of_All h xs ws)

  pub All-of_all : ((x : A) → p x ≡ true → P x) → (xs : List A) → all p xs ≡ true → All P xs
  All-of_all h [] e = tt
  All-of_all h (x ∷ xs) e = (h x (ground arith), All-of_all h xs (ground arith))

  pub any-of_Any : ((x : A) → P x → p x ≡ true) → (xs : List A) → Any P xs → any p xs ≡ true
  any-of_Any h [] w = absurd w
  any-of_Any h (x ∷ xs) (inl w) = rw (h x w)
  any-of_Any h (x ∷ xs) (inr w) = ground (arith, any-of_Any h xs w)

  pub Any-of_any : ((x : A) → p x ≡ true → P x) → (xs : List A) → any p xs ≡ true → Any P xs
  Any-of_any h [] e = cc
  Any-of_any h (x ∷ xs) e = elim (Bool-cases (p x)) [
    | inl t ↦ inl (h x t)
    | inr f ↦ inr (Any-of_any h xs (rw f at e))
  ]

-- The test on texts is symmetric.
pub eq_comm : (a b : String) → (a == b) ≡ (b == a)
eq_comm a b = elim (Bool-cases (a == b)) [
  | inl e ↦ e ∙ sym ((eq_iff b a).1 (sym ((eq_iff a b).0 e)))
  | inr e ↦ elim (Bool-cases (b == a)) [
    | inl f ↦ cc ((eq_iff a b).1 (sym ((eq_iff b a).0 f)))
    | inr f ↦ e ∙ sym f
  ]
]

-- `x in xs` finds an element that equals `x`.
pub elem-iff-Any : (x : String) (xs : List String) → (elem x xs ≡ true) ↔ Any (λ y. x ≡ y) xs
elem-iff-Any x [] = (λ h. cc, λ h. absurd h)
elem-iff-Any x (y ∷ ys) =
    let rest = elem-iff-Any x ys in
    (
      λ h. elim (Bool-cases (x == y)) [
        | inl t ↦ inl ((eq_iff x y).0 t)
        | inr f ↦ inr (rest.0 (rw f at h))
      ],
      λ w. elim w [ inl e ↦ rw ((eq_iff x y).1 e) | inr v ↦ ground (arith, rest.1 v) ],
    )
