-- ===== src/Prelude/Merging.antt =====
-- Two lists that come from one by a split that keeps the order.
use mathlib.Core.List.{List, [], ◌∷◌, ◌++◌}

-- `zs` holds the elements of `xs` and of `ys`, each in its order, and no others.
pub data Merge {ℓ} {A : Type ℓ} : List A → List A → List A → Type ℓ where
  done : Merge [] [] []
  left : {x : A} {xs ys zs : List A} → Merge xs ys zs → Merge (x ∷ xs) ys (x ∷ zs)
  right : {y : A} {xs ys zs : List A} → Merge xs ys zs → Merge xs (y ∷ ys) (y ∷ zs)

module _ {ℓ} {A : Type ℓ} where
  pub Merge-append_left :
      {xs ys zs : List A} (a : A) → Merge xs ys zs → Merge (xs ++ a ∷ []) ys (zs ++ a ∷ [])
  Merge-append_left a done = left done
  Merge-append_left a (left m) = left (Merge-append_left a m)
  Merge-append_left a (right m) = right (Merge-append_left a m)

  pub Merge-append_right :
      {xs ys zs : List A} (a : A) → Merge xs ys zs → Merge xs (ys ++ a ∷ []) (zs ++ a ∷ [])
  Merge-append_right a done = right done
  Merge-append_right a (left m) = left (Merge-append_right a m)
  Merge-append_right a (right m) = right (Merge-append_right a m)
