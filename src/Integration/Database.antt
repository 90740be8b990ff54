-- ===== src/Integration/Database.antt =====
-- The checks of one database in cmd/integration/main.go, and their order in `main`.
pub mod Counting
mod Tests
use mdbapi.Base.{
  ℕ, Bool, true, false, not, Option, none, some, List, [], ◌∷◌, ◌++◌, ◌==◌, ◌&&◌, ltb, map,
  if◌then◌else◌,
}
use mdbapi.Base.Assoc.{lookup}
use mdbapi.Strings.{Bytes, codes, str_eq, bytes_eq}
use mdbapi.Mdb.Errors.{Error, Result, ok, err, external}
use mdbapi.Mdb.Schema.{Db, new_column_cache, columns}
use mdbapi.Mdb.Pool
use mdbapi.Mdb.Pool.{DbConfig, Pool}
use mdbapi.Config.Expand.{after}
use mdbapi.Integration.Quoting.{quote_ident}
use mdbapi.Integration.Rows.{validate_rows_against_schema}
use mdbapi.Integration.Client.{
  ApiError, Reply, DbInfo, Runner, Client, get, post, get_data, asked, noted, pass, fail, expect,
  is_fine, check_health, check_databases,
}

-- len(data.Tables) == 0 is a failure
abbrev pub some_tables : List Bytes → Result (List Bytes)
some_tables [] = err (external (codes "tables list is empty"))
some_tables (t ∷ ts) = ok (t ∷ ts)

abbrev pub tables_noted : Result (List Bytes) → Runner → Runner × Result (List Bytes)
tables_noted (ok tables) r = (pass r, ok tables)
tables_noted (err e) r = (fail r, err e)

-- checkTablesEndpoint
unfoldable pub check_tables_endpoint : Client → Bytes → Runner → Runner × Result (List Bytes)
check_tables_endpoint client db r =
    let req = get (codes "v1" ∷ db ∷ codes "tables" ∷ []) true in
    tables_noted (after (get_data client client.decoder.tables req r) some_tables) (asked req r)

abbrev pub checked_rows : List Bytes → Option (List (List Bytes)) → Result (Unit {0})
checked_rows expected none = err (external (codes "rows is missing or not an array"))
checked_rows expected (some rows) = validate_rows_against_schema rows expected

-- checkTableEndpoint
unfoldable pub check_table_endpoint : Client → Bytes → Bytes → List Bytes → Runner → Runner
check_table_endpoint client db table expected r =
    let req = get (codes "v1" ∷ db ∷ table ∷ []) true in
    noted (after (get_data client client.decoder.rows req r) (checked_rows expected)) (asked req r)

-- checkSQLSelectEndpoint
unfoldable pub check_sql_select_endpoint : Client → Bytes → Bytes → List Bytes → Runner → Runner
check_sql_select_endpoint client db table expected r =
    let req =
      post (codes "v1" ∷ db ∷ codes "query" ∷ [])
        (codes "SELECT TOP 5 * FROM " ++ quote_ident table) in
    noted (after (get_data client client.decoder.rows req r) (checked_rows expected)) (asked req r)

abbrev pub is_forbidden : Option ApiError → Bool
is_forbidden none = false
is_forbidden (some e) = str_eq e.code (codes "forbidden")

abbrev pub refused : Reply → Result (Unit {0})
refused reply = expect (reply.status == 403 && is_forbidden reply.envelope.error)

-- checkSQLDeleteForbidden
unfoldable pub check_sql_delete_forbidden : Client → Bytes → Bytes → Runner → Runner
check_sql_delete_forbidden client db table r =
    let req =
      post (codes "v1" ∷ db ∷ codes "query" ∷ []) (codes "DELETE FROM " ++ quote_ident table) in
    noted (after (client.answer r.sent req) refused) (asked req r)

-- getSchemaColumns, on a cache of its own
unfoldable pub get_schema_columns : Pool → Bytes → Bytes → Result (List Bytes)
get_schema_columns pool alias table = after (Pool.get pool alias) (λ db.
    after (columns table (record { columns = new_column_cache db; sent = [] })).0
      (λ cols. ok (map (λ c. c.name) cols)))

abbrev pub with_columns : Client → Bytes → Bytes → Result (List Bytes) → Runner → Runner
with_columns client db table (err e) r = fail r
with_columns client db table (ok cols) r =
    check_sql_delete_forbidden client db table
      (check_sql_select_endpoint client db table cols (check_table_endpoint client db table cols r))

-- tables[0] is there, since the list is not empty
abbrev pub with_tables : Client → Pool → Bytes → Runner × Result (List Bytes) → Runner
with_tables client pool db (r, err e) = r
with_tables client pool db (r, ok []) = r
with_tables client pool db (r, ok (t ∷ ts)) =
    with_columns client db t (get_schema_columns pool db t) r

abbrev pub known_status : Option DbInfo → Bool
known_status none = true
known_status (some d) = is_fine d

-- runDatabaseChecks
unfoldable pub run_database_checks :
    Client → Pool → List (Bytes × DbInfo) → DbConfig → Runner → Runner
run_database_checks client pool db_list cfg r =
    let checks = with_tables client pool cfg.alias (check_tables_endpoint client cfg.alias r) in
    if known_status (lookup cfg.alias db_list) then checks else fail r

unfoldable pub run_each : Client → Pool → List (Bytes × DbInfo) → List DbConfig → Runner → Runner
run_each client pool db_list [] r = r
run_each client pool db_list (cfg ∷ cfgs) r =
    run_each client pool db_list cfgs (run_database_checks client pool db_list cfg r)

abbrev pub new_runner : Runner
new_runner = record { total = 0; failed = 0; sent = [] }

-- the checks of main, for a server that stops without an error; the exit code is 1 if one failed
unfoldable pub run_checks : Client → Pool → List DbConfig → Runner
run_checks client pool cfgs =
    let (r, db_list) = check_databases client cfgs (check_health client new_runner) in
    run_each client pool db_list cfgs r

abbrev pub exit_code : Runner → ℕ
exit_code r = if ltb 0 r.failed then 1 else 0
