-- ===== src/Api/Codes.antt =====
-- The status codes of the handlers of internal/api/handlers.go.
use mdbapi.Base.{◌≡◌, refl, Bool, false, none, some, List, is_nil}
use mdbapi.Base.Assoc.{lookup}
use mdbapi.Base.Int.{ℤ}
use mdbapi.Strings.{Bytes, codes, bytes_eq}
use mdbapi.Mdb.Errors.{ok, err, write_not_allowed}
use mdbapi.Mdb.Sql.{validate_read_only_sql}
use mdbapi.Mdb.Types.{Value}
use mdbapi.Mdb.Schema.{Db, ColumnMeta, ColumnCache, Session}
use mdbapi.Mdb.Query.{parse_query_opts, run_execute_sql}
use mdbapi.Mdb.Query.Columns.{unknown_filter, run_query_table_unknown}
use mdbapi.Mdb.Pool
use mdbapi.Mdb.Store.{PoolStore, query_table, execute_sql}
use mdbapi.Mdb.Store.Laws.{unknown_alias_err}
use mdbapi.Api.{Request, not_found, internal_error, forbidden}
use mdbapi.Api.Handlers.{
  SqlRequest, Server, or_true, is_not_found, is_write_error, handle_list_tables, handle_query_table,
  handle_execute_sql,
}

-- For an alias that the pool does not have, the three handlers of a database answer 404 and change
-- nothing; the body of an SQL request decodes, and has a statement.
pub handle_unknown_alias :
    (srv : Server) (alias table : Bytes) (r : Request) (body : Bytes) (req : SqlRequest)
    (s : PoolStore)
    → lookup alias s.pool.dbs ≡ none
    → lookup alias s.pool.conn_strs ≡ none
    → r.body ≡ ok body
    → srv.unmarshal body ≡ some req
    → is_nil req.sql ≡ false
    → (handle_list_tables srv alias r s ≡ (some not_found, s))
      × (handle_query_table srv alias table r s ≡ (some not_found, s))
      × (handle_execute_sql srv alias r s ≡ (some not_found, s))
unfolding handle_list_tables handle_query_table handle_execute_sql is_not_found is_write_error
handle_unknown_alias srv alias table r body req s no_db no_conn read decoded given =
    let (tables, rows, sql) =
      unknown_alias_err srv.catalog alias table req.sql (parse_query_opts r.query) req.params
        srv.max_rows (or_true req.trim_whitespace) s no_db no_conn in
    (rw tables, rw rows, rw (read, decoded, given, sql))

run_execute_sql_refused :
    (db : Db) (q : Bytes) (params : List Value) (m : ℤ) (trim : Bool) (s : Session)
    → validate_read_only_sql q ≡ err write_not_allowed
    → run_execute_sql db q params m trim s ≡ (err write_not_allowed, s)
unfolding run_execute_sql
run_execute_sql_refused db q params m trim s h = rw h

execute_sql_refused :
    (alias q : Bytes) (params : List Value) (m : ℤ) (trim : Bool) (db : Db) (s : PoolStore)
    → lookup alias s.pool.dbs ≡ some db
    → validate_read_only_sql q ≡ err write_not_allowed
    → execute_sql alias q params m trim s ≡ (err write_not_allowed, s)
unfolding execute_sql Pool.get
execute_sql_refused alias q params m trim db s there h =
    rw (there, run_execute_sql_refused db q params m trim _ h)

-- For an alias with a connection and a body that decodes, a statement that is not empty and fails
-- the read-only test is answered with 403, and nothing changes.
pub handle_execute_sql-forbidden :
    (srv : Server) (alias : Bytes) (r : Request) (body : Bytes) (req : SqlRequest) (db : Db)
    (s : PoolStore)
    → lookup alias s.pool.dbs ≡ some db
    → r.body ≡ ok body
    → srv.unmarshal body ≡ some req
    → is_nil req.sql ≡ false
    → validate_read_only_sql req.sql ≡ err write_not_allowed
    → handle_execute_sql srv alias r s
      ≡ (some (forbidden (codes "only SELECT statements are allowed")), s)
unfolding handle_execute_sql is_write_error
handle_execute_sql-forbidden srv alias r body req db s there read decoded given refused = rw (
  read,
  decoded,
  given,
  execute_sql_refused alias req.sql req.params srv.max_rows _ db s there refused,
)

-- With the schema of the table in the cache, a filter on a column that it lacks is answered with
-- 500, and nothing is sent to the database.
pub handle_query_table_unknown :
    (srv : Server) (alias table : Bytes) (r : Request) (db : Db) (c : ColumnCache)
    (cols : List ColumnMeta) (bad : Bytes) (s : PoolStore)
    → lookup alias s.pool.dbs ≡ some db
    → lookup alias s.caches ≡ some c
    → lookup table c.cache ≡ some cols
    → unknown_filter cols (parse_query_opts r.query).filters ≡ some bad
    → ((handle_query_table srv alias table r s).0 ≡ some internal_error)
      × ((handle_query_table srv alias table r s).1.sent ≡ s.sent)
unfolding handle_query_table query_table Pool.get is_not_found
handle_query_table_unknown srv alias table r db c cols bad s there cached hit h =
    rw
      (
        there,
        cached,
        run_query_table_unknown db table (parse_query_opts r.query) srv.max_rows
            (record { columns = c; sent = s.sent }) cols bad hit h,
      )
      (refl, refl)
