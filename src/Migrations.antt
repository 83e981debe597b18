-- ===== src/Migrations.antt =====
-- alembic/versions: the operations of Alembic that the migrations call, as data, and what they do to
-- the names that the database declares. The database itself is a parameter.
pub mod Metadata
pub mod Versions
pub mod History
pub mod Undo
pub mod Names
pub mod Head
pub mod Agreement
use connect_governance.Prelude.{
  String, ◌≡◌, Bool, ◌||◌, Option, none, some, List, [], ◌∷◌, ◌++◌, ◌==◌, if◌then◌else◌,
}

-- sa.String(), sa.Text(), sa.Boolean(), sa.Integer() and sa.Float().
pub data ColumnType : Type 0 where
  string text boolean integer float : ColumnType

-- sa.Column(name, type, nullable=...)
pub record Column : Type 0 where
  pub name : String
  pub type : ColumnType
  pub nullable : Bool

-- What `create_table` takes behind the name, in the order of the call.
pub data Element : Type 0 where
  column : String → ColumnType → Bool → Element
  primary_key : List String → Element
  foreign_key : List String → List String → Element
  unique : List String → String → Element
  check : String → String → Element

pub record Table : Type 0 where
  pub columns : List Column
  pub primary : List String
  pub foreign_keys : List (List String × List String)
  pub uniques : List (List String × String)
  pub checks : List (String × String)

pub record Index : Type 0 where
  pub table_name : String
  pub columns : List String
  pub is_unique : Bool

-- Tables and indexes share one space of names.
pub data Object : Type 0 where
  table : Table → Object
  index : Index → Object

abbrev pub Catalog : Type 0
Catalog = String → Option Object

abbrev pub add_element : Element → Table → Table
add_element (column n t nullable) b = record b {
  columns = record { name = n; type = t; nullable = nullable } ∷ b.columns;
}
add_element (primary_key cs) b = record b { primary = cs ++ b.primary }
add_element (foreign_key cs rs) b = record b { foreign_keys = (cs, rs) ∷ b.foreign_keys }
add_element (unique cs n) b = record b { uniques = (cs, n) ∷ b.uniques }
add_element (check sql n) b = record b { checks = (sql, n) ∷ b.checks }

abbrev pub no_elements : Table
no_elements = record { columns = []; primary = []; foreign_keys = []; uniques = []; checks = [] }

-- The table that the elements describe.
abbrev pub table_of : List Element → Table
table_of [] = no_elements
table_of (e ∷ es) = add_element e (table_of es)

-- A call of `op`, or of `batch_op` in the block of a table.
pub data Operation : Type 0 where
  create_table : String → List Element → Operation
  create_index : (name : String) → Index → Operation
  drop_index : (table_name : String) → (name : String) → Operation
  drop_table : String → Operation

abbrev pub set : String → Object → Catalog → Catalog
set k o s n = if k == n then some o else s n

abbrev pub unset : String → Catalog → Catalog
unset k s n = if k == n then none else s n

-- The object is the table `k`, or an index on it.
abbrev pub belongs : String → String → Option Object → Bool
belongs k n (some (index i)) = (k == n) || (k == i.table_name)
belongs k n _ = k == n

-- DROP TABLE takes the table's indexes with it.
abbrev pub unset_table : String → Catalog → Catalog
unset_table k s n = if belongs k n (s n) then none else s n

abbrev pub if_absent : Option Object → Catalog → Option Catalog
if_absent none s = some s
if_absent (some o) s = none

abbrev pub if_table : Option Object → Option Catalog → Option Catalog
if_table (some (table t)) s = s
if_table _ s = none

abbrev pub if_index : Option Object → Option Catalog → Option Catalog
if_index (some (index i)) s = s
if_index _ s = none

-- What an operation does to the declared names; `none` where the database refuses it.
unfoldable pub effect : Operation → Catalog → Option Catalog
effect (create_table n es) s = if_absent (s n) (set n (table (table_of es)) s)
effect (create_index n i) s = if_table (s i.table_name) (if_absent (s n) (set n (index i) s))
effect (drop_index t n) s = if_table (s t) (if_index (s n) (some (unset n s)))
effect (drop_table n) s = if_table (s n) (some (unset_table n s))

abbrev pub and_then {ℓ} : {A B : Type ℓ} → Option A → (A → Option B) → Option B
and_then none f = none
and_then (some a) f = f a

abbrev pub map_option {ℓ} : {A B : Type ℓ} → (A → B) → Option A → Option B
map_option f none = none
map_option f (some a) = some (f a)

-- The body of `upgrade` or `downgrade`, one call after the other.
unfoldable pub effects : List Operation → Catalog → Option Catalog
unfolding effect
effects [] s = some s
effects (o ∷ os) s = and_then (effect o s) (effects os)

-- A database: SQLAlchemy's inspection of what it declares, and the execution of an operation, which
-- does what the statements `CREATE` and `DROP` are documented to do.
pub record Database (D : Type 0) : Type 0 where
  pub inspect : D → Catalog
  pub execute : Operation → D → Option D
  pub inspect-execute :
      (o : Operation) (d : D) → map_option inspect (execute o d) ≡ effect o (inspect d)

unfoldable pub run : {D : Type 0} → Database D → List Operation → D → Option D
run db [] d = some d
run db (o ∷ os) d = and_then (db.execute o d) (run db os)
