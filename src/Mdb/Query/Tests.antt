-- ===== src/Mdb/Query/Tests.antt =====
-- Runs of internal/mdb/query.go against a small database, and instances of the theorems.
use mdbapi.Base.{◌≡◌, refl, true, false, none, List, [], ◌∷◌, map, arith, take, drop, if◌then◌else◌}
use mdbapi.Base.Int.{pos, ◌+ℤ◌}
use mdbapi.Base.Assoc.{lookup, insert}
use mdbapi.Strings.{codes, str_eq, bytes_eq}
use mdbapi.Strings.Scan.{running_scan}
use mdbapi.Mdb.Errors.{Error, ok, err, invalid_filter, unknown_column}
use mdbapi.Mdb.Sql.{running_sql, validate_read_only_sql}
use mdbapi.Mdb.Types.{Value, ColumnType, running_types}
use mdbapi.Mdb.Schema.{
  Rows, Statement, Db, Session, new_column_cache, query_context, describe, describe_text,
  columns_from, columns, find_column, validate_column,
}
use mdbapi.Mdb.Query.Columns.{
  FiltersKnown, OrderKnown, run_query_table_known, run_query_table_unknown,
}
use mdbapi.Mdb.Query.Paging.{rows_of, run_query_table_page}
use mdbapi.Mdb.Query.Passthrough.{sent_after, Refused, run_execute_sql_sent}
use mdbapi.Mdb.Query.{
  QueryOpts, Values, is_reserved, get, add_filter, collect_filters, parse_query_opts,
  effective_limit, build_where, build_order, select_text, fill_row, scan_loop, scan_rows,
  run_query_table, run_execute_sql,
}

-- everything that a run of a query computes with
unfoldable running_query : Unit {0}
unfolding running_sql running_types running_scan lookup insert new_column_cache query_context
    describe columns_from columns find_column validate_column is_reserved get add_filter
    collect_filters parse_query_opts effective_limit ◌+ℤ◌ build_where build_order select_text
    fill_row scan_loop scan_rows run_query_table run_execute_sql
running_query = tt

abbrev request : Values
request =
    (codes "limit", codes "50" ∷ [])
    ∷ (codes "id", codes "7" ∷ codes "8" ∷ [])
    ∷ (codes "sort", codes "id" ∷ [])
    ∷ []

parsed : (parse_query_opts request).limit ≡ pos 50
unfolding running_query
parsed = refl

abbrev id_column : ColumnType
id_column = record { name = codes "id"; database_type_name = codes "INTEGER"; nullable = false }

abbrev orders : List (List Value)
orders = (Value.int32 (pos 1) ∷ []) ∷ (Value.int32 (pos 2) ∷ []) ∷ (Value.int32 (pos 3) ∷ []) ∷ []

abbrev result_of : List (List Value) → Rows
result_of rows = record {
  columns = ok (codes "id" ∷ []);
  column_types = ok (id_column ∷ []);
  scans = map ok rows;
  failure = none;
}

-- a database with one table of three rows, which answers TOP 3
abbrev shop : Db
shop = record {
  answer = λ sent stmt.
      if str_eq stmt.text (describe_text (codes "t"))
      then ok (result_of [])
      else ok (result_of orders);
}

abbrev start : Session
start = record { columns = new_column_cache shop; sent = [] }

abbrev opts : QueryOpts
opts = record {
  filters = (codes "id", codes "7") ∷ [];
  limit = pos 2;
  offset = pos 1;
  sort_by = [];
  sort_desc = false;
  trim_whitespace = true;
}

page_text :
    map (λ (s : Statement). s.text) (run_query_table shop (codes "t") opts (pos 1000) start).1.sent
    ≡ codes "SELECT * FROM [t] WHERE 1=0" ∷ codes "SELECT TOP 3 * FROM [t] WHERE [id] = ?" ∷ []
unfolding running_query
page_text = refl

abbrev described : Session
described = (build_where (codes "t") opts.filters start).1

run_query_table_page_example :
    (run_query_table shop (codes "t") opts (pos 1000) start).0
    ≡ ok (record {
      columns = codes "id" ∷ [];
      rows = rows_of true (codes "id" ∷ []) (id_column ∷ []) (take 2 (drop 1 orders));
    })
unfolding running_query
run_query_table_page_example =
    run_query_table_page shop (codes "t") opts (pos 1000) start described described
      {clauses = codes "[id] = ?" ∷ []} {args = Value.str (codes "7") ∷ []} {order = []} 2 1
      (result_of orders) {names = codes "id" ∷ []} {types = id_column ∷ []} orders refl refl refl
      refl (omega arith) refl refl refl refl refl

run_query_table_known_example :
    FiltersKnown (run_query_table shop (codes "t") opts (pos 1000) start).1 (codes "t") opts.filters
    × OrderKnown (run_query_table shop (codes "t") opts (pos 1000) start).1 (codes "t") opts.sort_by
unfolding running_query
run_query_table_known_example =
    run_query_table_known shop (codes "t") opts (pos 1000) start
      (record {
        columns = codes "id" ∷ [];
        rows = rows_of true (codes "id" ∷ []) (id_column ∷ []) (take 2 (drop 1 orders));
      })
      refl

abbrev bad_opts : QueryOpts
bad_opts = record opts { filters = (codes "id", codes "7") ∷ (codes "x] OR 1=1", codes "8") ∷ [] }

run_query_table_unknown_example :
    run_query_table shop (codes "t") bad_opts (pos 1000) described
    ≡ (err (Error.wrap invalid_filter (unknown_column (codes "x] OR 1=1") (codes "t"))), described)
unfolding running_query
run_query_table_unknown_example =
    run_query_table_unknown shop (codes "t") bad_opts (pos 1000) described
      (record { name = codes "id"; type_name = codes "INTEGER"; nullable = false } ∷ [])
      (codes "x] OR 1=1") refl refl

run_execute_sql_sent_example :
    ((run_execute_sql shop (codes "DROP TABLE t") [] (pos 9) true start).1.sent
      ≡ sent_after
          (validate_read_only_sql (codes "DROP TABLE t"))
          (codes "DROP TABLE t")
          []
          (pos 9)
          [])
    × Refused
        (validate_read_only_sql (codes "DROP TABLE t"))
        (run_execute_sql shop (codes "DROP TABLE t") [] (pos 9) true start).0
run_execute_sql_sent_example =
    run_execute_sql_sent shop (codes "DROP TABLE t") [] (pos 9) true start
