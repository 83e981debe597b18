-- ===== src/Migrations/Head.antt =====
-- alembic/versions and src/connect_governance/db/models.py: the catalog that the four migrations leave,
-- beside what the classes declare.
use mathlib.Core.List.{Perm}
use mathlib.Core.List.Perm
use connect_governance.Prelude.{
  String, ◌≡◌, refl, ap, ◌∙◌, inl, inr, true, false, Option, none, some, List, [], ◌∷◌, elem,
  dict_get, All, all, eq_iff, eq_comm, arith, Bool-cases, ◌==◌,
}
use connect_governance.Migrations.{Table, Object, table, Catalog, table_of, effects}
use connect_governance.Migrations.Metadata.{
  Model, declared, declared_elements, indexes_of, index_objects,
}
use connect_governance.Migrations.Metadata.Declared.{metadata}
use connect_governance.Migrations.Names.{created, IsFree, overlay, effects-created}
use connect_governance.Migrations.Versions.Script.{versions}
use connect_governance.Migrations.History.{Follows}
use connect_governance.Migrations.History.Climb.{upgrades}

-- The revision that no other revises.
abbrev pub head : Option String
head = some "e3b2a91d7c55"

-- The same columns in the same order and the same primary key; the other constraints up to order.
abbrev pub SameTable : Table → Table → Type 0
SameTable t u =
    (t.columns ≡ u.columns)
    × (t.primary ≡ u.primary)
    × Perm t.foreign_keys u.foreign_keys
    × Perm t.uniques u.uniques
    × Perm t.checks u.checks

-- The catalog has the table that the class declares, and its indexes.
abbrev pub HasModel : Catalog → Model → Type 0
HasModel e m =
    ((t : Table) × (e m.tablename ≡ some (table t)) × SameTable t (table_of (declared_elements m)))
    × All (λ p. e p.0 ≡ some p.1) (index_objects (indexes_of m.tablename m.mapped))

differs : {a b : String} → (a == b) ≡ false → ¬ ◌≡◌ {A = Option String} (some a) (some b)
differs {a} {b} e h = let equal : a ≡ b = cc in cc ((eq_iff a b).1 equal)

none_differs : {a : String} → ¬ ◌≡◌ {A = Option String} (some a) none
none_differs h = cc

pub versions-Follows : Follows none versions
versions-Follows = (
  refl,
  (none_differs, (none_differs, (none_differs, (none_differs, tt)))),
  refl,
  refl,
  (
    refl,
    (differs refl, (differs refl, (differs refl, tt))),
    refl,
    refl,
    (
      refl,
      (differs refl, (differs refl, tt)),
      refl,
      refl,
      (refl, (differs refl, tt), refl, refl, tt),
    ),
  ),
)

same : (t : Table) → SameTable t t
same t = (refl, refl, Perm.refl _, Perm.refl _, Perm.refl _)

-- By the classes in the order of the module.
pub overlay-HasModel :
    (c : Catalog) → All (HasModel (overlay (created (upgrades versions)) c)) metadata
overlay-HasModel c = (
  ((_, refl, same _), tt),
  (
    ((_, refl, same _), tt),
    (
      ((_, refl, same _), tt),
      (
        ((_, refl, same _), tt),
        (
          ((_, refl, same _), (refl, tt)),
          (
            ((_, refl, same _), tt),
            (
              ((_, refl, (refl, refl, Perm.refl _, Perm.swap _ _ [], Perm.refl _)), (refl, tt)),
              (
                ((_, refl, same _), tt),
                (
                  ((_, refl, same _), (refl, (refl, (refl, (refl, tt))))),
                  (
                    ((_, refl, same _), (refl, (refl, (refl, (refl, (refl, tt)))))),
                    (
                      ((_, refl, same _), (refl, tt)),
                      (
                        (
                          (_, refl, (refl, refl, Perm.swap _ _ [], Perm.refl _, Perm.refl _)),
                          (refl, (refl, tt)),
                        ),
                        (((_, refl, same _), (refl, tt)), tt),
                      ),
                    ),
                  ),
                ),
              ),
            ),
          ),
        ),
      ),
    ),
  ),
)

abbrev keys : List (String × Object) → List String
keys [] = []
keys ((n, o) ∷ objects) = n ∷ keys objects

elem-keys :
    (k : String) (objects : List (String × Object))
    → dict_get k objects ≡ none
    → elem k (keys objects) ≡ false
elem-keys k [] h = refl
elem-keys k ((n, o) ∷ objects) h = elim (Bool-cases (n == k)) [
  | inl e ↦ cc (rw e at h)
  | inr e ↦ rw (eq_comm k n ∙ e) (elem-keys k objects (rw e at h))
]

-- What has no other names than `objects` has no name that `objects` has not.
dict_get-keys :
    (k : String) (objects others : List (String × Object))
    → all (λ p. elem p.0 (keys objects)) others ≡ true
    → dict_get k objects ≡ none
    → dict_get k others ≡ none
dict_get-keys k objects [] a h = refl
dict_get-keys k objects ((n, o) ∷ others) a h = elim (Bool-cases (n == k)) [
  | inl e ↦
      let equal : n ≡ k = (eq_iff n k).0 e in
      let absent : elem n (keys objects) ≡ false =
        ap (λ x. elem x (keys objects)) equal ∙ elem-keys k objects h in
      cc (rw absent at a)
  | inr e ↦ rw e (dict_get-keys k objects others (ground arith) h)
]

pub dict_get-created :
    (k : String)
    → dict_get k (declared metadata) ≡ none
    → dict_get k (created (upgrades versions)) ≡ none
dict_get-created k = dict_get-keys k (declared metadata) (created (upgrades versions)) refl

pub effects-versions :
    (c : Catalog)
    → IsFree (declared metadata) c
    → effects (upgrades versions) c ≡ some (overlay (created (upgrades versions)) c)
effects-versions c free =
    effects-created (upgrades versions) [] [] c refl
      (λ k. elim (free k) [ inl e ↦ inl e | inr e ↦ inr (dict_get-created k e) ]) (λ k h. cc)
