-- ===== src/Mdb/Schema.antt =====
-- internal/mdb/schema.go: the column cache, over database/sql as a parameter.
pub mod Laws
pub mod Grows
use mdbapi.Base.{◌≡◌, Bool, Option, none, some, List, [], ◌∷◌, ◌++◌, map, if◌then◌else◌}
use mdbapi.Base.Assoc.{lookup, insert}
use mdbapi.Strings.{Bytes, codes, str_eq, bytes_eq}
use mdbapi.Mdb.Errors.{
  Error, Result, ok, err, describe_table, describe_table_types, unknown_column, column_not_found,
}
use mdbapi.Mdb.Exec.{Exec, pure, lift, in_context, ◌>>=◌, ◌>>◌}
use mdbapi.Mdb.Types.{Value, ColumnType}

-- a statement as it is handed to the driver
pub record Statement : Type 0 where
  pub text : Bytes
  pub args : List Value

-- *sql.Rows: its metadata, what each Next and Scan gives, and Err at the end
pub record Rows : Type 0 where
  pub columns : Result (List Bytes)
  pub column_types : Result (List ColumnType)
  pub scans : List (Result (List Value))
  pub failure : Option Error

-- *sql.DB is a parameter: its answer may depend on all the statements that were sent before.
pub record Db : Type 0 where
  pub answer : List Statement → Statement → Result Rows

pub record ColumnMeta : Type 0 where
  pub name : Bytes
  pub type_name : Bytes
  pub nullable : Bool

-- ColumnCache
pub record ColumnCache : Type 0 where
  pub db : Db
  pub cache : List (Bytes × List ColumnMeta)

-- NewColumnCache
unfoldable pub new_column_cache : Db → ColumnCache
new_column_cache db = record { db = db; cache = [] }

-- the cache that a request works on, and the statements sent so far
pub record Session : Type 0 where
  pub columns : ColumnCache
  pub sent : List Statement

-- db.QueryContext
unfoldable pub query_context : Db → Bytes → List Value → Exec Session Rows
query_context db text args s =
    let stmt : Statement = record { text = text; args = args } in
    (db.answer s.sent stmt, record s { sent = s.sent ++ stmt ∷ [] })

abbrev pub column_meta : ColumnType → ColumnMeta
column_meta ct = record {
  name = ct.name;
  type_name = ct.database_type_name;
  nullable = ct.nullable;
}

abbrev pub describe_text : Bytes → Bytes
describe_text table = codes "SELECT * FROM [" ++ (table ++ codes "] WHERE 1=0")

-- describeTable
unfoldable pub describe : Db → Bytes → Exec Session (List ColumnMeta)
unfolding query_context
describe db table = do
  rows ← in_context (describe_table table) (query_context db (describe_text table) [])
  types ← in_context (describe_table_types table) (lift rows.column_types)
  pure (map column_meta types)

-- c.cache[table] = cols
abbrev pub remember : Bytes → List ColumnMeta → Exec Session (List ColumnMeta)
remember table cols s =
    (ok cols, record s { columns = record s.columns { cache = insert table cols s.columns.cache } })

-- Columns, after the lookup in the cache
unfoldable pub columns_from : Bytes → Option (List ColumnMeta) → Exec Session (List ColumnMeta)
columns_from table (some cols) s = (ok cols, s)
columns_from table none s = (describe s.columns.db table >>= remember table) s

unfoldable pub columns : Bytes → Exec Session (List ColumnMeta)
columns table s = columns_from table (lookup table s.columns.cache) s

unfoldable pub find_column : Bytes → List ColumnMeta → Option ColumnMeta
find_column name [] = none
find_column name (col ∷ cols) = if str_eq col.name name then some col else find_column name cols

-- the loop of ValidateColumn, by its result
abbrev pub known_or_err : Bytes → Bytes → Option ColumnMeta → Result (Unit {0})
known_or_err table name none = err (unknown_column name table)
known_or_err table name (some col) = ok tt

unfoldable pub validate_column : Bytes → Bytes → Exec Session (Unit {0})
validate_column table name = do
  cols ← columns table
  lift (known_or_err table name (find_column name cols))

abbrev pub type_or_err : Bytes → Bytes → Option ColumnMeta → Result Bytes
type_or_err table name none = err (column_not_found name table)
type_or_err table name (some col) = ok col.type_name

-- ColumnType
unfoldable pub column_type : Bytes → Bytes → Exec Session Bytes
column_type table name = do
  cols ← columns table
  lift (type_or_err table name (find_column name cols))
