-- ===== src/Migrations/Metadata.antt =====
-- src/connect_governance/db/models.py: the tables that the classes declare, `Base.metadata`. A default of the
-- ORM (`default=True`) is not part of the table.
pub mod Principals
pub mod Work
pub mod Artifacts
pub mod Declared
use connect_governance.Prelude.{
  String, Bool, true, false, if◌then◌else◌, Option, none, some, List, [], ◌∷◌, ◌++◌,
}
use connect_governance.Migrations.{
  ColumnType, string, text, boolean, integer, float, Element, column, primary_key, foreign_key,
  unique, check, Index, Object, table, index, table_of,
}
use Prim.Native.String.{◌++◌ as text_append}

-- mapped_column(type, ForeignKey(...), primary_key=..., nullable=..., index=...)
pub record MappedColumn : Type 0 where
  pub name : String
  pub type : ColumnType
  pub primary_key : Bool
  pub nullable : Bool
  pub references : Option String
  pub indexed : Bool

abbrev pub key : String → ColumnType → MappedColumn
key n t = record {
  name = n;
  type = t;
  primary_key = true;
  nullable = false;
  references = none;
  indexed = false;
}

abbrev pub required : String → ColumnType → MappedColumn
required n t = record {
  name = n;
  type = t;
  primary_key = false;
  nullable = false;
  references = none;
  indexed = false;
}

abbrev pub optional : String → ColumnType → MappedColumn
optional n t = record {
  name = n;
  type = t;
  primary_key = false;
  nullable = true;
  references = none;
  indexed = false;
}

-- nullable=False, index=True
abbrev pub looked_up : MappedColumn → MappedColumn
looked_up c = record c { indexed = true }

-- mapped_column(ForeignKey(target), nullable=False), whose type is the target's.
abbrev pub link : String → String → MappedColumn
link n target = record {
  name = n;
  type = string;
  primary_key = false;
  nullable = false;
  references = some target;
  indexed = false;
}

pub record Model : Type 0 where
  pub tablename : String
  pub table_args : List Element
  pub mapped : List MappedColumn

abbrev pub columns_of : List MappedColumn → List Element
columns_of [] = []
columns_of (c ∷ cs) = column c.name c.type c.nullable ∷ columns_of cs

abbrev pub keys_of : List MappedColumn → List String
keys_of [] = []
keys_of (c ∷ cs) = if c.primary_key then c.name ∷ keys_of cs else keys_of cs

abbrev pub reference_of : String → Option String → List Element → List Element
reference_of n none es = es
reference_of n (some target) es = foreign_key (n ∷ []) (target ∷ []) ∷ es

abbrev pub references_of : List MappedColumn → List Element
references_of [] = []
references_of (c ∷ cs) = reference_of c.name c.references (references_of cs)

-- What SQLAlchemy declares for a class: `Model.__table__`.
abbrev pub declared_elements : Model → List Element
declared_elements m =
    columns_of m.mapped ++ references_of m.mapped ++ primary_key (keys_of m.mapped) ∷ m.table_args

-- The name that SQLAlchemy gives the index of a column, ix_<table>_<column>.
abbrev pub index_name : String → String → String
index_name t c = text_append "ix_" (text_append t (text_append "_" c))

abbrev pub indexes_of : String → List MappedColumn → List (String × Index)
indexes_of t [] = []
indexes_of t (c ∷ cs) =
    if c.indexed
    then (index_name t c.name, record { table_name = t; columns = c.name ∷ []; is_unique = false })
      ∷ indexes_of t cs
    else indexes_of t cs

abbrev pub index_objects : List (String × Index) → List (String × Object)
index_objects [] = []
index_objects ((n, i) ∷ is) = (n, index i) ∷ index_objects is

-- Every table and index that the classes declare, by name.
abbrev pub declared : List Model → List (String × Object)
declared [] = []
declared (m ∷ ms) =
    (m.tablename, table (table_of (declared_elements m)))
    ∷ (index_objects (indexes_of m.tablename m.mapped) ++ declared ms)
