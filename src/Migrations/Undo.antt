-- ===== src/Migrations/Undo.antt =====
-- A `create` call and the `drop` call that takes it back.
use connect_governance.Prelude.{
  String, ◌≡◌, refl, sym, ap, ◌∙◌, subst, Bool, true, false, Option, none, some, List, [], ◌∷◌,
  ◌++◌, ◌==◌, eq_iff, eq_refl, arith, Bool-cases, Option-cases, inl, inr, all,
}
use mathlib.Core.Path.{fun_ext}
use connect_governance.Migrations.{
  Table, Index, Object, table, index, Catalog, Operation, create_table, create_index, drop_index,
  drop_table, table_of, set, unset, unset_table, belongs, if_absent, if_table, effect, and_then,
  effects,
}

-- Every index is of a table that is there.
abbrev pub IsWellFormed : Catalog → Type 0
IsWellFormed s =
    (n : String) (i : Index)
    → s n ≡ some (index i)
    → (t : Table) × (s i.table_name ≡ some (table t))

abbrev pub is_create : Operation → Bool
is_create (create_table n es) = true
is_create (create_index n i) = true
is_create _ = false

abbrev pub inverse : Operation → Operation
inverse (create_table n es) = drop_table n
inverse (create_index n i) = drop_index i.table_name n
inverse o = o

-- The inverses, the last one first.
abbrev pub undo : List Operation → List Operation
undo [] = []
undo (o ∷ os) = undo os ++ inverse o ∷ []

pub if_absent-eq-some :
    (o : Option Object) (s : Catalog) {s' : Catalog}
    → if_absent o s ≡ some s'
    → (o ≡ none) × (s ≡ s')
if_absent-eq-some none s h = (refl, cc)
if_absent-eq-some (some o) s h = cc

pub if_table-eq-some :
    (o : Option Object) (s : Option Catalog) {s' : Catalog}
    → if_table o s ≡ some s'
    → (t : Table) × (o ≡ some (table t)) × (s ≡ some s')
if_table-eq-some none s h = cc
if_table-eq-some (some (table t)) s h = (t, refl, h)
if_table-eq-some (some (index i)) s h = cc

pub set_same : (k : String) (o : Object) (s : Catalog) → set k o s k ≡ some o
set_same k o s = rw (eq_refl k)

pub set_other :
    (k : String) (o : Object) (s : Catalog) (n : String) → (k == n) ≡ false → set k o s n ≡ s n
set_other k o s n h = rw h

unset-set :
    (k : String) (o : Object) (s : Catalog)
    → s k ≡ none
    → (n : String) → unset k (set k o s) n ≡ s n
unset-set k o s absent n = elim (Bool-cases (k == n)) [
  | inl e ↦ let same : k ≡ n = (eq_iff k n).0 e in rw e cc
  | inr e ↦ rw e
]

-- What belongs to a table that is absent is the table alone.
belongs_absent :
    (k n : String) (s : Catalog)
    → IsWellFormed s
    → s k ≡ none
    → (k == n) ≡ false
    → belongs k n (s n) ≡ false
belongs_absent k n s wf absent other = elim (Option-cases (s n)) [
  | inl e ↦ rw e other
  | inr (table t, e) ↦ rw e other
  | inr (index i, e) ↦ elim (Bool-cases (k == i.table_name)) [
    | inl here ↦
        let (t, there) = wf n i e in
        let same : k ≡ i.table_name = (eq_iff k i.table_name).0 here in
        let made : ◌≡◌ {A = Option Object} none (some (table t)) = sym absent ∙ ap s same ∙ there in
        cc made
    | inr gone ↦ rw (e, other, gone)
  ]
]

unset_table-set :
    (k : String) (t : Table) (s : Catalog)
    → IsWellFormed s
    → s k ≡ none
    → (n : String) → unset_table k (set k (table t) s) n ≡ s n
unset_table-set k t s wf absent n = elim (Bool-cases (k == n)) [
  | inl e ↦ let same : k ≡ n = (eq_iff k n).0 e in rw (e, e) cc
  | inr e ↦ rw (e, belongs_absent k n s wf absent e)
]

-- A new name hides nothing.
pub set_keeps :
    (k : String) (o p : Object) (s : Catalog) (m : String)
    → s k ≡ none
    → s m ≡ some p
    → set k o s m ≡ some p
set_keeps k o p s m absent there = elim (Bool-cases (k == m)) [
  | inl e ↦
      let same : k ≡ m = (eq_iff k m).0 e in
      let made : ◌≡◌ {A = Option Object} none (some p) = sym absent ∙ ap s same ∙ there in cc made
  | inr e ↦ set_other k o s m e ∙ there
]

pub set-IsWellFormed_table :
    (k : String) (t : Table) (s : Catalog)
    → s k ≡ none
    → IsWellFormed s
    → IsWellFormed (set k (table t) s)
set-IsWellFormed_table k t s absent wf n i h = elim (Bool-cases (k == n)) [
  | inl e ↦ cc (rw e at h)
  | inr e ↦
      let (u, there) = wf n i (sym (set_other k (table t) s n e) ∙ h) in
      (u, set_keeps k (table t) (table u) s i.table_name absent there)
]

set-IsWellFormed_index :
    (k : String) (j : Index) (t : Table) (s : Catalog)
    → s k ≡ none
    → s j.table_name ≡ some (table t)
    → IsWellFormed s
    → IsWellFormed (set k (index j) s)
set-IsWellFormed_index k j t s absent has wf n i h = elim (Bool-cases (k == n)) [
  | inl e ↦
      let same : j ≡ i = cc (rw e at h) in
      (
        t,
        set_keeps k (index j) (table t) s i.table_name absent
            (ap (λ x. s x.table_name) (sym same) ∙ has),
      )
  | inr e ↦
      let (u, there) = wf n i (sym (set_other k (index j) s n e) ∙ h) in
      (u, set_keeps k (index j) (table u) s i.table_name absent there)
]

-- What a `create` call makes of a well-formed catalog its inverse takes back.
effect-inverse :
    (o : Operation) (s : Catalog) {s' : Catalog}
    → is_create o ≡ true
    → IsWellFormed s
    → effect o s ≡ some s'
    → IsWellFormed s' × (effect (inverse o) s' ≡ some s)
unfolding effect
effect-inverse (create_table k es) s c wf h =
    let t = table_of es in
    let (absent, made) = if_absent-eq-some (s k) (set k (table t) s) h in
    subst (λ x. IsWellFormed x × (effect (drop_table k) x ≡ some s)) made
      (
        set-IsWellFormed_table k t s absent wf,
        rw (eq_refl k) (ap some (fun_ext (unset_table-set k t s wf absent))),
      )
effect-inverse (create_index k i) s c wf h =
    let (t, has, inner) = if_table-eq-some (s i.table_name) _ h in
    let (absent, made) = if_absent-eq-some (s k) (set k (index i) s) inner in
    subst (λ x. IsWellFormed x × (effect (drop_index i.table_name k) x ≡ some s)) made
      (
        set-IsWellFormed_index k i t s absent has wf,
        rw (set_keeps k (index i) (table t) s i.table_name absent has)
            (rw (eq_refl k) (ap some (fun_ext (unset-set k (index i) s absent)))),
      )
effect-inverse (drop_index t n) s c wf h = cc
effect-inverse (drop_table n) s c wf h = cc

pub and_then-eq-some :
    (o : Option Catalog) (f : Catalog → Option Catalog) {b : Catalog}
    → and_then o f ≡ some b
    → (a : Catalog) × (o ≡ some a) × (f a ≡ some b)
and_then-eq-some none f h = cc
and_then-eq-some (some a) f h = (a, refl, h)

pub effects-append :
    (os ps : List Operation) (s : Catalog)
    → effects (os ++ ps) s ≡ and_then (effects os s) (effects ps)
unfolding effects
effects-append [] ps s = refl
effects-append (o ∷ os) ps s = elim (Option-cases (effect o s)) [
  | inl e ↦ rw e
  | inr (a, e) ↦ rw e (effects-append os ps a)
]

-- A body of `create` calls that succeeded is taken back by the inverses in reverse.
pub effects-undo :
    (os : List Operation) (s : Catalog) {s' : Catalog}
    → all is_create os ≡ true
    → IsWellFormed s
    → effects os s ≡ some s'
    → IsWellFormed s' × (effects (undo os) s' ≡ some s)
unfolding effects
effects-undo [] s c wf h = subst (λ x. IsWellFormed x × (some x ≡ some s)) (cc h) (wf, refl)
effects-undo (o ∷ os) s {s'} c wf h =
    let (a, first, rest) = and_then-eq-some (effect o s) (effects os) h in
    let (wf_a, back) = effect-inverse o s (ground arith) wf first in
    let (wf_s, rest_back) = effects-undo os a (ground arith) wf_a rest in
    (wf_s, effects-append (undo os) (inverse o ∷ []) s' ∙ rw (rest_back, back))
