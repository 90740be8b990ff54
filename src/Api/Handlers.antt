-- ===== src/Api/Handlers.antt =====
-- internal/api/handlers.go: the handlers, over the store.
use mdbapi.Base.{
  Bool, true, false, ◌&&◌, ◌||◌, Option, none, some, List, [], ◌∷◌, if◌then◌else◌, is_nil, ltb,
  ◌==◌, length, every,
}
use mdbapi.Base.Int.{ℤ}
use mdbapi.Strings.{Bytes, codes, str_eq}
use mdbapi.Mdb.Errors.{Error, Result, ok, err}
use mdbapi.Mdb.Types.{Value}
use mdbapi.Mdb.Types.Encoding.{Time}
use mdbapi.Mdb.Schema.{Db}
use mdbapi.Mdb.Query.{QueryResult, parse_query_opts}
use mdbapi.Mdb.Pool.{DbInfo}
use mdbapi.Mdb.Pool
use mdbapi.Mdb.Store.{PoolStore, list_tables, query_table, execute_sql}
use mdbapi.Api.{
  Response, Handler, Body, write_json, not_found, internal_error, bad_request, forbidden,
}

-- what json.Unmarshal finds in a body
pub record SqlRequest : Type 0 where
  pub sql : Bytes
  pub params : List Value
  pub trim_whitespace : Option Bool

-- Server, with the ODBC catalog, Ping, os.Stat and json.Unmarshal; the store is the state
pub record Server : Type 0 where
  pub max_rows : ℤ
  pub version : Bytes
  pub commit : Bytes
  pub catalog : Bytes → Result (List Bytes)
  pub ping : Db → Option Bytes
  pub stat : Bytes → Option Time
  pub unmarshal : Bytes → Option SqlRequest

-- errors.As(err, &ErrUnknownAlias{}) and errors.Is(err, ErrWriteNotAllowed)
unfoldable pub is_not_found : Error → Bool
is_not_found (Error.unknown_alias alias) = true
is_not_found (Error.wrap what e) = is_not_found e
is_not_found _ = false

unfoldable pub is_write_error : Error → Bool
is_write_error Error.write_not_allowed = true
is_write_error (Error.wrap what e) = is_write_error e
is_write_error _ = false

abbrev pub failure : Error → Response
failure e = if is_not_found e then not_found else internal_error

-- dbs[i].Alias < dbs[j].Alias
unfoldable pub str_lt : Bytes → Bytes → Bool
str_lt [] [] = false
str_lt [] (d ∷ t) = true
str_lt (c ∷ s) [] = false
str_lt (c ∷ s) (d ∷ t) = let rest = str_lt s t in ltb c d || (c == d && rest)

unfoldable pub place : DbInfo → List DbInfo → List DbInfo
place x [] = x ∷ []
place x (y ∷ ys) = let rest = place x ys in if str_lt y.alias x.alias then y ∷ rest else x ∷ y ∷ ys

-- sort.Slice by alias; aliases are distinct, so the order is determined
unfoldable pub sorted : List DbInfo → List DbInfo
sorted [] = []
sorted (x ∷ xs) = place x (sorted xs)

unfoldable pub handle_list_databases : Server → Handler PoolStore
handle_list_databases srv r s =
    (some (write_json 200 (Body.databases (sorted (Pool.databases srv.ping srv.stat s.pool)))), s)

abbrev pub tables_response : Bytes → Result (List Bytes) → Response
tables_response alias (err e) = failure e
tables_response alias (ok tables) = write_json 200 (Body.tables alias tables)

unfoldable pub handle_list_tables : Server → Bytes → Handler PoolStore
handle_list_tables srv alias r s =
    (some (tables_response alias (list_tables srv.catalog alias s)), s)

abbrev pub rows_response : Bytes → Bytes → Result QueryResult → Response
rows_response alias table (err e) = failure e
rows_response alias table (ok result) =
    write_json 200 (Body.table_rows alias table (length result.rows) result.rows)

unfoldable pub handle_query_table : Server → Bytes → Bytes → Handler PoolStore
handle_query_table srv alias table r s =
    let (result, s') = query_table alias table (parse_query_opts r.query) srv.max_rows s in
    (some (rows_response alias table result), s')

abbrev pub sql_failure : Error → Response
sql_failure e =
    if is_write_error e then forbidden (codes "only SELECT statements are allowed") else failure e

abbrev pub sql_response : Bytes → Result QueryResult → Response
sql_response alias (err e) = sql_failure e
sql_response alias (ok result) =
    write_json 200 (Body.sql_rows alias (length result.rows) result.rows)

abbrev pub or_true : Option Bool → Bool
or_true none = true
or_true (some b) = b

abbrev pub run_sql : Server → Bytes → SqlRequest → PoolStore → Option Response × PoolStore
run_sql srv alias req s =
    let (result, s') =
      execute_sql alias req.sql req.params srv.max_rows (or_true req.trim_whitespace) s in
    if is_nil req.sql
    then (some (bad_request (codes "sql field is required")), s)
    else (some (sql_response alias result), s')

abbrev pub run_body : Server → Bytes → Option SqlRequest → PoolStore → Option Response × PoolStore
run_body srv alias none s = (some (bad_request (codes "invalid JSON body")), s)
run_body srv alias (some req) s = run_sql srv alias req s

abbrev pub run_read : Server → Bytes → Result Bytes → PoolStore → Option Response × PoolStore
run_read srv alias (err e) s = (some (bad_request (codes "failed to read request body")), s)
run_read srv alias (ok body) s = run_body srv alias (srv.unmarshal body) s

unfoldable pub handle_execute_sql : Server → Bytes → Handler PoolStore
handle_execute_sql srv alias r s = run_read srv alias r.body s

unfoldable pub handle_version : Server → Handler PoolStore
handle_version srv r s = (some (write_json 200 (Body.version srv.version srv.commit)), s)

unfoldable pub handle_health : Server → Handler PoolStore
handle_health srv r s =
    let healthy =
      every (λ (d : DbInfo). str_eq d.status (codes "ok"))
        (Pool.databases srv.ping srv.stat s.pool) in
    (some (write_json 200 (Body.health (if healthy then codes "ok" else codes "degraded"))), s)
