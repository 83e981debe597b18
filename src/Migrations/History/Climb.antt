-- ===== src/Migrations/History/Climb.antt =====
-- alembic/versions: the upgrades from one version to the last, one behind the other.
use connect_governance.Prelude.{
  String, ◌≡◌, refl, sym, ap, ◌∙◌, subst, inl, inr, Option, none, some, List, [], ◌∷◌, ◌++◌, Any,
  All, Option-cases,
}
use connect_governance.Migrations.{
  Table, table, Catalog, Operation, effect, effects, map_option, Database, run,
}
use connect_governance.Migrations.Undo.{and_then-eq-some, effects-append}
use connect_governance.Migrations.Versions.{Revision}
use connect_governance.Migrations.History.Opening.{effects_keep}
use connect_governance.Migrations.History.{
  version_name, open_deployment, Deployment, at_start, after, upgrade, Reach, next, Follows, Passes,
}

abbrev pub upgrades : List Revision → List Operation
upgrades [] = []
upgrades (r ∷ rs) = r.upgrade ++ upgrades rs

abbrev pub last_version : Option String → List Revision → Option String
last_version v [] = v
last_version v (r ∷ rs) = last_version (some r.revision) rs

pub Passes-upgrades :
    (rs : List Revision) (v : Option String) (c : Catalog) {e : Catalog}
    → effects (upgrades rs) c ≡ some e
    → Passes rs v c (last_version v rs) e
unfolding effects
Passes-upgrades [] v c {e} h = let same : c ≡ e = cc in subst (λ y. Passes [] v c v y) same at_start
Passes-upgrades (r ∷ rs) v c h =
    let (m, first, rest) =
      and_then-eq-some (effects r.upgrade c) (effects (upgrades rs))
        (sym (effects-append r.upgrade (upgrades rs) c) ∙ h) in
    after first (Passes-upgrades rs (some r.revision) m rest)

module _ {D : Type 0} (db : Database D) where
  run_made :
      (os : List Operation) (d : D) {e : Catalog}
      → effects os (db.inspect d) ≡ some e
      → (d' : D) × (run db os d ≡ some d') × (db.inspect d' ≡ e)
  unfolding run effects
  run_made [] d h = (d, refl, cc)
  run_made (o ∷ os) d {e} h =
      let (c, first, rest) = and_then-eq-some (effect o (db.inspect d)) (effects os) h in
      elim (Option-cases (db.execute o d)) [
        | inl x ↦
            let made : ◌≡◌ {A = Option Catalog} none (some c) =
              sym (ap (map_option db.inspect) x) ∙ db.inspect-execute o d ∙ first in
            cc made
        | inr (m, x) ↦
            let same : ◌≡◌ {A = Option Catalog} (some (db.inspect m)) (some c) =
              sym (ap (map_option db.inspect) x) ∙ db.inspect-execute o d ∙ first in
            let same_c : c ≡ db.inspect m = cc in
            rw x (run_made os m (ap (effects os) (sym same_c) ∙ rest))
      ]

  pub Reach-upgrades :
      (history rs : List Revision) (start : Deployment D) (v : Option String) (d o : D)
      {e : Catalog} {t : Table}
      → Follows v rs
      → All (λ r. Any (λ q. q ≡ r) history) rs
      → open_deployment db d ≡ some o
      → db.inspect o version_name ≡ some (table t)
      → effects (upgrades rs) (db.inspect o) ≡ some e
      → Reach db history start (record { version = v; database = d })
      → (d' : D) × Reach db history start (record { version = last_version v rs; database = d' })
  Reach-upgrades history [] start v d o f a opens there h reached = (d, reached)
  Reach-upgrades history (r ∷ rs) start v d o {t = t} f (a, members) opens there h reached =
      let (m, first, rest) =
        and_then-eq-some (effects r.upgrade (db.inspect o)) (effects (upgrades rs))
          (sym (effects-append r.upgrade (upgrades rs) (db.inspect o)) ∙ h) in
      let (d', ran, same) = run_made r.upgrade o first in
      let stays : db.inspect d' version_name ≡ some (table t) =
        ap (λ c. c version_name) same
        ∙ effects_keep r.upgrade version_name (table t) (db.inspect o) f.2 first there in
      Reach-upgrades history rs start (some r.revision) d' d' f.4 members (rw stays refl) stays
        (ap (effects (upgrades rs)) same ∙ rest) (next reached (upgrade r a f.0 opens ran))
