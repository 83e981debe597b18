-- ===== src/Migrations/Names.antt =====
-- The names that a body of `create` calls declares, and the catalog that it leaves.
use mathlib.Core.Path.{fun_ext}
use connect_governance.Prelude.{
  String, ◌≡◌, refl, sym, ap, ◌∙◌, ◌⊎◌, inl, inr, Bool, true, false, not, ◌&&◌, Option, none, some,
  List, [], ◌∷◌, ◌==◌, elem, dict_get, eq_iff, eq_refl, eq_comm, arith, Bool-cases,
}
use connect_governance.Migrations.Undo.{set_other, set_keeps}
use connect_governance.Migrations.{
  Table, Object, table, index, Catalog, Operation, create_table, create_index, drop_index,
  drop_table, table_of, set, effect, effects,
}

-- Tables and indexes in the order in which they are created.
abbrev pub created : List Operation → List (String × Object)
created [] = []
created (create_table n es ∷ os) = (n, table (table_of es)) ∷ created os
created (create_index n i ∷ os) = (n, index i) ∷ created os
created (o ∷ os) = created os

abbrev pub or_else : Option Object → Option Object → Option Object
or_else none o = o
or_else (some p) o = some p

-- What is created lies over what was there.
abbrev pub overlay : List (String × Object) → Catalog → Catalog
overlay objects s n = or_else (dict_get n objects) (s n)

-- No call takes a name among `names` or one that an earlier call took, and every index is of a table
-- among `tables` or of an earlier call.
abbrev pub is_creatable : List String → List String → List Operation → Bool
is_creatable names tables [] = true
is_creatable names tables (create_table n es ∷ os) =
    not (elem n names) && is_creatable (n ∷ names) (n ∷ tables) os
is_creatable names tables (create_index n i ∷ os) =
    not (elem n names) && elem i.table_name tables && is_creatable (n ∷ names) tables os
is_creatable names tables (o ∷ os) = false

-- A taken name is not created.
taken :
    (os : List Operation) (names tables : List String) (k : String)
    → is_creatable names tables os ≡ true
    → elem k names ≡ true
    → dict_get k (created os) ≡ none
taken [] names tables k c h = refl
taken (create_table n es ∷ os) names tables k c h = elim (Bool-cases (n == k)) [
  | inl e ↦
      let same : n ≡ k = (eq_iff n k).0 e in
      let clash : elem n names ≡ true = ap (λ x. elem x names) same ∙ h in cc (rw clash at c)
  | inr e ↦ rw e (taken os (n ∷ names) (n ∷ tables) k (ground arith) (ground arith))
]
taken (create_index n i ∷ os) names tables k c h = elim (Bool-cases (n == k)) [
  | inl e ↦
      let same : n ≡ k = (eq_iff n k).0 e in
      let clash : elem n names ≡ true = ap (λ x. elem x names) same ∙ h in cc (rw clash at c)
  | inr e ↦ rw e (taken os (n ∷ names) tables k (ground arith) (ground arith))
]
taken (drop_index t n ∷ os) names tables k c h = cc
taken (drop_table n ∷ os) names tables k c h = cc

-- The names that `os` creates are free in `s`.
abbrev pub IsFree : List (String × Object) → Catalog → Type 0
IsFree objects s = (k : String) → (s k ≡ none) ⊎ (dict_get k objects ≡ none)

-- The tables that are counted on are there.
abbrev Has : List String → Catalog → Type 0
Has tables s = (k : String) → elem k tables ≡ true → (t : Table) × (s k ≡ some (table t))

overlay-set :
    (n : String) (o : Object) (objects : List (String × Object)) (s : Catalog)
    → dict_get n objects ≡ none
    → overlay objects (set n o s) ≡ overlay ((n, o) ∷ objects) s
overlay-set n o objects s later = fun_ext λ k. elim (Bool-cases (n == k)) [
  | inl e ↦
      let same : n ≡ k = (eq_iff n k).0 e in
      let gone : dict_get k objects ≡ none = ap (λ x. dict_get x objects) (sym same) ∙ later in
      rw (gone) (rw e refl)
  | inr e ↦ rw e refl
]

IsFree-head :
    (n : String) (o : Object) (objects : List (String × Object)) (s : Catalog)
    → IsFree ((n, o) ∷ objects) s
    → s n ≡ none
IsFree-head n o objects s free = elim (free n) [ inl e ↦ e | inr e ↦ cc (rw (eq_refl n) at e) ]

IsFree-set :
    (n : String) (o : Object) (objects : List (String × Object)) (s : Catalog)
    → IsFree ((n, o) ∷ objects) s
    → dict_get n objects ≡ none
    → IsFree objects (set n o s)
IsFree-set n o objects s free later k = elim (Bool-cases (n == k)) [
  | inl e ↦
      let same : n ≡ k = (eq_iff n k).0 e in inr (ap (λ x. dict_get x objects) (sym same) ∙ later)
  | inr e ↦ elim (free k) [ inl f ↦ inl (set_other n o s k e ∙ f) | inr f ↦ inr (rw e at f) ]
]

Has-set :
    (n : String) (o : Object) (tables : List String) (s : Catalog)
    → s n ≡ none
    → Has tables s
    → Has tables (set n o s)
Has-set n o tables s absent has k h =
    let (t, there) = has k h in (t, set_keeps n o (table t) s k absent there)

Has-cons :
    (n : String) (t : Table) (tables : List String) (s : Catalog)
    → s n ≡ none
    → Has tables s
    → Has (n ∷ tables) (set n (table t) s)
Has-cons n t tables s absent has k h = elim (Bool-cases (k == n)) [
  | inl e ↦ (t, rw (eq_comm n k ∙ e) refl)
  | inr e ↦ Has-set n (table t) tables s absent has k (rw e at h)
]

-- A body of calls that create fresh names succeeds, and adds exactly those names.
pub effects-created :
    (os : List Operation) (names tables : List String) (s : Catalog)
    → is_creatable names tables os ≡ true
    → IsFree (created os) s
    → Has tables s
    → effects os s ≡ some (overlay (created os) s)
unfolding effects effect
effects-created [] names tables s c free has = refl
effects-created (create_table n es ∷ os) names tables s c free has =
    let t = table_of es in
    let absent = IsFree-head n (table t) (created os) s free in
    let fresh : is_creatable (n ∷ names) (n ∷ tables) os ≡ true = ground arith in
    let later = taken os (n ∷ names) (n ∷ tables) n fresh (rw (eq_refl n) refl) in
    rw absent (
      effects-created os (n ∷ names) (n ∷ tables) (set n (table t) s) fresh
        (IsFree-set n (table t) (created os) s free later) (Has-cons n t tables s absent has)
      ∙ ap some (overlay-set n (table t) (created os) s later))
effects-created (create_index n i ∷ os) names tables s c free has =
    let absent = IsFree-head n (index i) (created os) s free in
    let fresh : is_creatable (n ∷ names) tables os ≡ true = ground arith in
    let later = taken os (n ∷ names) tables n fresh (rw (eq_refl n) refl) in
    let (t, there) = has i.table_name (ground arith) in
    rw there (
      rw absent (
        effects-created os (n ∷ names) tables (set n (index i) s) fresh
          (IsFree-set n (index i) (created os) s free later)
          (Has-set n (index i) tables s absent has)
        ∙ ap some (overlay-set n (index i) (created os) s later)))
effects-created (drop_index t n ∷ os) names tables s c free has = cc
effects-created (drop_table n ∷ os) names tables s c free has = cc
