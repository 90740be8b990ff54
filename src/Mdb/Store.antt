-- ===== src/Mdb/Store.antt =====
-- internal/mdb/store.go: the pool with a column cache for each alias.
pub mod Laws
mod Tests
use mdbapi.Base.{Bool, Option, none, some, List, [], ◌∷◌, if◌then◌else◌, is_nil}
use mdbapi.Base.Int.{ℤ}
use mdbapi.Base.Assoc.{lookup, insert}
use mdbapi.Strings.{Bytes, bytes_eq}
use mdbapi.Mdb.Errors.{Error, Result, ok, err, unknown_alias}
use mdbapi.Mdb.Exec.{Exec}
use mdbapi.Mdb.Types.{Value}
use mdbapi.Mdb.Schema.{Statement, Db, ColumnCache, new_column_cache, Session}
use mdbapi.Mdb.Query.{QueryOpts, QueryResult, run_query_table, run_execute_sql}
use mdbapi.Mdb.Pool
use mdbapi.Mdb.Pool.{Pool}

-- PoolStore, and the statements sent so far
pub record PoolStore : Type 0 where
  pub pool : Pool
  pub caches : List (Bytes × ColumnCache)
  pub sent : List Statement

-- NewPoolStore
unfoldable pub new_pool_store : Pool → PoolStore
new_pool_store pool = record { pool = pool; caches = []; sent = [] }

-- ListTables, over the ODBC catalog call as a function of the connection string
unfoldable pub list_tables : (Bytes → Result (List Bytes)) → Bytes → PoolStore → Result (List Bytes)
list_tables catalog alias s =
    let conn = Pool.conn_str_for s.pool alias in
    let tables = catalog conn in if is_nil conn then err (unknown_alias alias) else tables

-- cache, for the connection that the pool has for the alias
abbrev pub cache_or_new : Db → Option ColumnCache → ColumnCache
cache_or_new db none = new_column_cache db
cache_or_new db (some c) = c

-- run a query on the cache of an alias and store the cache again
abbrev pub with_cache : Bytes → ColumnCache → Exec Session QueryResult → Exec PoolStore QueryResult
with_cache alias c m s =
    let (r, t) = m (record { columns = c; sent = s.sent }) in
    (r, record s { caches = insert alias t.columns s.caches; sent = t.sent })

abbrev pub query_on : Bytes → Bytes → QueryOpts → ℤ → Result Db → Exec PoolStore QueryResult
query_on alias table opts max_rows (err e) s = (err e, s)
query_on alias table opts max_rows (ok db) s =
    with_cache alias (cache_or_new db (lookup alias s.caches))
      (run_query_table db table opts max_rows) s

-- QueryTable
unfoldable pub query_table : Bytes → Bytes → QueryOpts → ℤ → Exec PoolStore QueryResult
query_table alias table opts max_rows s =
    query_on alias table opts max_rows (Pool.get s.pool alias) s

abbrev pub without_cache : ColumnCache → Exec Session QueryResult → Exec PoolStore QueryResult
without_cache c m s =
    let (r, t) = m (record { columns = c; sent = s.sent }) in (r, record s { sent = t.sent })

abbrev pub execute_on : Bytes → List Value → ℤ → Bool → Result Db → Exec PoolStore QueryResult
execute_on query params max_rows trim (err e) s = (err e, s)
execute_on query params max_rows trim (ok db) s =
    without_cache (new_column_cache db) (run_execute_sql db query params max_rows trim) s

-- ExecuteSQL
unfoldable pub execute_sql : Bytes → Bytes → List Value → ℤ → Bool → Exec PoolStore QueryResult
execute_sql alias query params max_rows trim s =
    execute_on query params max_rows trim (Pool.get s.pool alias) s
