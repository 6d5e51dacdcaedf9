-- ===== src/Migrations/Schema.antt =====
-- Database schemas, and the operations of alembic's `op` that the migrations use. An operation that the database
-- refuses is an `operational_error`.
use miniverse_backend.Base.{
  ℕ, Bool, true, false, not, ◌&&◌, Option, List, [], ◌∷◌, ◌++◌, Text, ◌==◌, keep, exists, adjust,
  Result, ok, err, Error,
}

-- The types of the columns: `String(length)`, `Text`, `Boolean` and `Enum(…, name=…)`.
pub data ColumnType : Type 0 where
  string : ℕ → ColumnType
  long_text : ColumnType
  boolean : ColumnType
  enumeration : Text → List Text → ColumnType

-- `server_default` is `sa.true()`, `sa.false()` or missing.
pub record Column : Type 0 where
  pub name : Text
  pub type : ColumnType
  pub nullable : Bool
  pub server_default : Option Bool

-- A key of one column into the column `id` of a table.
pub record ForeignKey : Type 0 where
  pub column : Text
  pub table : Text
  pub cascade : Bool

pub record Index : Type 0 where
  pub name : Text
  pub column : Text
  pub unique : Bool

pub record Table : Type 0 where
  pub name : Text
  pub columns : List Column
  pub primary_key : List Text
  pub foreign_keys : List ForeignKey
  pub indexes : List Index

abbrev pub Schema : Type 0
Schema = List Table

infixl 5 ◌>>=◌
abbrev pub ◌>>=◌ : {A B : Type 0} → Result A → (A → Result B) → Result B
ok a >>= f = f a
err e >>= f = err e

abbrev pub guard : Bool → Schema → Result Schema
guard true s = ok s
guard false s = err Error.operational_error

abbrev pub is_table : Text → Table → Bool
is_table n t = t.name == n

abbrev pub is_column : Text → Column → Bool
is_column n c = c.name == n

abbrev pub is_index : Text → Index → Bool
is_index n i = i.name == n

abbrev pub has_table : Text → Schema → Bool
has_table n = exists (is_table n)

abbrev pub has_column : Text → Text → Schema → Bool
has_column n c = exists (λ t. is_table n t && exists (is_column c) t.columns)

-- Does another table refer to it?
abbrev pub is_referred : Text → Schema → Bool
is_referred n = exists (λ t. not (is_table n t) && exists (λ k. k.table == n) t.foreign_keys)

-- `op.create_table`, whose keys lead into tables that are there
unfoldable pub create_table : Table → Schema → Result Schema
create_table t s =
    guard (not (has_table t.name s) && not (exists (λ k. not (has_table k.table s)) t.foreign_keys))
      (s ++ t ∷ [])

-- `op.drop_table`
unfoldable pub drop_table : Text → Schema → Result Schema
drop_table n s = guard (has_table n s && not (is_referred n s)) (keep (λ t. not (is_table n t)) s)

abbrev pub with_index : Index → Table → Table
with_index i t = record t { indexes = t.indexes ++ i ∷ [] }

abbrev pub without_index : Text → Table → Table
without_index i t = record t { indexes = keep (λ j. not (is_index i j)) t.indexes }

-- `op.create_index`
unfoldable pub create_index : Text → Index → Schema → Result Schema
create_index n i s =
    guard (exists (λ t. is_table n t && not (exists (is_index i.name) t.indexes)) s)
      (adjust (is_table n) (with_index i) s)

-- `op.drop_index`
unfoldable pub drop_index : Text → Text → Schema → Result Schema
drop_index i n s =
    guard (exists (λ t. is_table n t && exists (is_index i) t.indexes) s)
      (adjust (is_table n) (without_index i) s)

abbrev pub with_column : Column → Table → Table
with_column c t = record t { columns = t.columns ++ c ∷ [] }

abbrev pub without_column : Text → Table → Table
without_column c t = record t { columns = keep (λ d. not (is_column c d)) t.columns }

abbrev pub set_nullable : Bool → Column → Column
set_nullable b c = record c { nullable = b }

abbrev pub with_nullable : Text → Bool → Table → Table
with_nullable c b t = record t { columns = adjust (is_column c) (set_nullable b) t.columns }

-- `op.add_column`
unfoldable pub add_column : Text → Column → Schema → Result Schema
add_column n c s =
    guard (has_table n s && not (has_column n c.name s)) (adjust (is_table n) (with_column c) s)

-- `op.drop_column`
unfoldable pub drop_column : Text → Text → Schema → Result Schema
drop_column n c s = guard (has_column n c s) (adjust (is_table n) (without_column c) s)

-- `op.alter_column` with `nullable`
unfoldable pub alter_nullable : Text → Text → Bool → Schema → Result Schema
alter_nullable n c b s = guard (has_column n c s) (adjust (is_table n) (with_nullable c b) s)
