-- ===== src/Migrations/Catalog.antt =====
-- What alembic's operations do to a PostgreSQL catalog. An operation that the server refuses, for
-- a name that is taken or missing, gives no catalog.
use bodhrik_fullstack_assess.Common.{
  ℕ, String, ◌≡◌, refl, arith, Bool, true, false, not, ◌&&◌, Option, none, some, List, [], ◌∷◌,
  ◌++◌, str_eq, any,
}
use bodhrik_fullstack_assess.Common.Table.{update_where, delete_where}

-- sa.Uuid, sa.String, sa.Text, sa.Integer, sa.Boolean, sa.DateTime(timezone=True), and an sa.Enum
-- by the name of its type
pub data ColumnType : Type 0 where
  uuid text integer boolean timestamptz : ColumnType
  varchar : ℕ → ColumnType
  enum : String → ColumnType

pub record Column : Type 0 where
  pub name : String
  pub type : ColumnType
  pub nullable : Bool
  pub server_default : Option String

abbrev pub not_null : String → ColumnType → Column
not_null name type = record { name = name; type = type; nullable = false; server_default = none }

abbrev pub nullable : String → ColumnType → Column
nullable name type = record { name = name; type = type; nullable = true; server_default = none }

-- nullable=False with a server default
abbrev pub defaulted : String → ColumnType → String → Column
defaulted name type value = record {
  name = name;
  type = type;
  nullable = false;
  server_default = some value;
}

-- the expressions of the CHECK constraints: `a > b`, `a != b`, and `a >= lo AND a <= hi`
pub data Expression : Type 0 where
  greater differ : String → String → Expression
  between : String → ℕ → ℕ → Expression

-- ondelete=
pub data OnDelete : Type 0 where
  cascade set_null : OnDelete

-- A unique constraint may have a name; a foreign key is from a column to a column of a table.
pub data Rule : Type 0 where
  primary_key : String → Rule
  unique : Option String → List String → Rule
  check : String → Expression → Rule
  foreign_key : String → String → String → OnDelete → Rule

pub record Table : Type 0 where
  pub name : String
  pub columns : List Column
  pub rules : List Rule

pub record Index : Type 0 where
  pub name : String
  pub table : String
  pub columns : List String
  pub is_unique : Bool

pub record EnumType : Type 0 where
  pub name : String
  pub labels : List String

pub record Catalog : Type 0 where
  pub tables : List Table
  pub indexes : List Index
  pub types : List EnumType

abbrev pub Migration : Type 0
Migration = Catalog → Option Catalog

infixr 5 ◌>=>◌
abbrev pub ◌>=>◌ : Migration → Migration → Migration
◌>=>◌ m k c = elim (m c) [ none ↦ none | some d ↦ k d ]

abbrev pub has_table : String → Catalog → Bool
has_table n c = any (λ t. str_eq t.name n) c.tables

abbrev pub has_index : String → Catalog → Bool
has_index n c = any (λ i. str_eq i.name n) c.indexes

abbrev pub has_type : String → Catalog → Bool
has_type n c = any (λ t. str_eq t.name n) c.types

abbrev pub only_if : Bool → Catalog → Option Catalog
only_if true c = some c
only_if false c = none

-- the CREATE TYPE that the first table with an sa.Enum sends before its CREATE TABLE
abbrev pub create_type : EnumType → Migration
create_type e c = only_if (not (has_type e.name c)) (record c { types = e ∷ c.types })

-- op.create_table
abbrev pub create_table : Table → Migration
create_table t c = only_if (not (has_table t.name c)) (record c { tables = t ∷ c.tables })

-- op.create_index
abbrev pub create_index : String → String → List String → Bool → Migration
create_index name table columns is_unique c =
    only_if (has_table table c && not (has_index name c)) (record c {
      indexes =
          record { name = name; table = table; columns = columns; is_unique = is_unique }
          ∷ c.indexes;
    })

-- op.drop_index
abbrev pub drop_index : String → Migration
drop_index name c =
    only_if (has_index name c)
      (record c { indexes = delete_where (λ i. str_eq i.name name) c.indexes })

-- op.drop_table, which drops the indexes of the table too
abbrev pub drop_table : String → Migration
drop_table name c = only_if (has_table name c) (record c {
  tables = delete_where (λ t. str_eq t.name name) c.tables;
  indexes = delete_where (λ i. str_eq i.table name) c.indexes;
})

-- DROP TYPE IF EXISTS
abbrev pub drop_type : String → Migration
drop_type name c = some (record c { types = delete_where (λ t. str_eq t.name name) c.types })

abbrev pub map_table : String → (Table → Table) → Catalog → Catalog
map_table name f c = record c { tables = update_where (λ t. str_eq t.name name) f c.tables }

-- op.add_column
abbrev pub add_column : String → Column → Migration
add_column table column c =
    only_if (has_table table c)
      (map_table table (λ t. record t { columns = t.columns ++ column ∷ [] }) c)

-- op.alter_column(…, nullable=False)
abbrev pub set_not_null : String → String → Migration
set_not_null table column c = only_if (has_table table c) (
    map_table table
      (λ t. record t {
        columns =
            update_where (λ k. str_eq k.name column) (λ k. record k { nullable = false }) t.columns;
      })
      c)

-- op.drop_column
abbrev pub drop_column : String → String → Migration
drop_column table column c = only_if (has_table table c) (
    map_table table (λ t. record t { columns = delete_where (λ k. str_eq k.name column) t.columns })
      c)

-- An index is on a table of the name.
abbrev pub indexed : String → Catalog → Bool
indexed n c = any (λ i. str_eq i.table n) c.indexes

pub delete-absent :
    {A : Type 0} (p : A → Bool) (xs : List A) → any p xs ≡ false → delete_where p xs ≡ xs
delete-absent p [] h = refl
delete-absent p (x ∷ xs) h = ground (arith, delete-absent p xs)
