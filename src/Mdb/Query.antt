-- ===== src/Mdb/Query.antt =====
-- internal/mdb/query.go: query options, the two kinds of query, and the rows they return.
pub mod Options
pub mod Columns
pub mod Paging
pub mod Passthrough
mod Tests
use mdbapi.Base.{
  ℕ, zero, suc, ◌+◌, Bool, true, false, ◌||◌, Option, none, some, List, [], ◌∷◌, ◌++◌, ◌==◌,
  if◌then◌else◌, is_nil, any,
}
use mdbapi.Base.Int.{ℤ, pos, negsuc, ltb_ℤ, leb_ℤ, ◌+ℤ◌}
use mdbapi.Base.Assoc.{lookup, insert}
use mdbapi.Strings.{Bytes, codes, str_eq, bytes_eq, equal_fold, join, trim_right}
use mdbapi.Strings.Decimal.{itoa_ℤ}
use mdbapi.Strings.Scan.{sscan_int}
use mdbapi.Mdb.Errors.{
  Error, Result, ok, err, wrapping, invalid_filter, invalid_sort_column, query_table, execute_sql,
  scan_row,
}
use mdbapi.Mdb.Exec.{Exec, pure, lift, in_context, ◌>>=◌, ◌>>◌}
use mdbapi.Mdb.Sql.{validate_read_only_sql, enforce_top_n}
use mdbapi.Mdb.Types
use mdbapi.Mdb.Types.{Value, Cell, ColumnType, normalize_value}
use mdbapi.Mdb.Schema.{Rows, Db, Session, query_context, validate_column}

pub record QueryOpts : Type 0 where
  pub filters : List (Bytes × Bytes)
  pub limit : ℤ
  pub offset : ℤ
  pub sort_by : Bytes
  pub sort_desc : Bool
  pub trim_whitespace : Bool

-- map[string]interface{}
abbrev pub Row : Type 0
Row = List (Bytes × Cell)

pub record QueryResult : Type 0 where
  pub columns : List Bytes
  pub rows : List Row

-- url.Values
abbrev pub Values : Type 0
Values = List (Bytes × List Bytes)

abbrev pub reserved_names : List Bytes
reserved_names =
    codes "limit" ∷ codes "offset" ∷ codes "sort" ∷ codes "sort_desc" ∷ codes "trim_whitespace" ∷ []

unfoldable pub is_reserved : Bytes → Bool
is_reserved key = any (str_eq key) reserved_names

-- q.Get
abbrev pub first_or_empty : Option (List Bytes) → Bytes
first_or_empty (some (v ∷ vs)) = v
first_or_empty (some []) = []
first_or_empty none = []

unfoldable pub get : Values → Bytes → Bytes
get q key = first_or_empty (lookup key q)

-- one round of the loop over the parameters
unfoldable pub add_filter : Bytes → List Bytes → List (Bytes × Bytes) → List (Bytes × Bytes)
add_filter key [] filters = filters
add_filter key (v ∷ vs) filters = if is_reserved key then filters else insert key v filters

unfoldable pub collect_filters : Values → List (Bytes × Bytes) → List (Bytes × Bytes)
collect_filters [] filters = filters
collect_filters ((key, vals) ∷ q) filters = collect_filters q (add_filter key vals filters)

-- if v != "" { fmt.Sscan(v, &x) } for an x that is 0
abbrev pub or_zero : Option ℤ → ℤ
or_zero none = pos 0
or_zero (some n) = n

abbrev pub scan_or_zero : Bytes → ℤ
scan_or_zero v = if is_nil v then pos 0 else or_zero (sscan_int v)

abbrev pub is_true : Bytes → Bool
is_true v = equal_fold v (codes "true") || str_eq v (codes "1")

unfoldable pub parse_query_opts : Values → QueryOpts
parse_query_opts q = record {
  filters = collect_filters q [];
  limit = scan_or_zero (get q (codes "limit"));
  offset = scan_or_zero (get q (codes "offset"));
  sort_by = get q (codes "sort");
  sort_desc = is_true (get q (codes "sort_desc"));
  trim_whitespace =
      if is_nil (get q (codes "trim_whitespace"))
      then true
      else is_true (get q (codes "trim_whitespace"));
}

-- if opts.Limit <= 0 || opts.Limit > maxRows { opts.Limit = maxRows }
unfoldable pub effective_limit : ℤ → ℤ → ℤ
effective_limit limit max_rows =
    if leb_ℤ limit (pos 0) || ltb_ℤ max_rows limit then max_rows else limit

abbrev pub bracketed : Bytes → Bytes
bracketed name = b'[' ∷ (name ++ codes "]")

-- the WHERE clauses and their arguments; each column is checked before it is written
unfoldable pub build_where : Bytes → List (Bytes × Bytes) → Exec Session (List Bytes × List Value)
build_where table [] = pure ([], [])
build_where table ((col, val) ∷ filters) = do
  in_context invalid_filter (validate_column table col)
  (clauses, args) ← build_where table filters
  pure ((bracketed col ++ codes " = ?") ∷ clauses, Value.str val ∷ args)

unfoldable pub build_order : Bytes → Bytes → Bool → Exec Session Bytes
build_order table [] desc = pure []
build_order table (c ∷ sort_by) desc = do
  in_context invalid_sort_column (validate_column table (c ∷ sort_by))
  pure (
      codes " ORDER BY "
      ++ (bracketed (c ∷ sort_by) ++ (if desc then codes " DESC" else codes " ASC")))

abbrev pub where_text : List Bytes → Bytes
where_text [] = []
where_text (c ∷ cs) = codes " WHERE " ++ join (c ∷ cs) (codes " AND ")

unfoldable pub select_text : ℤ → Bytes → List Bytes → Bytes → Bytes
select_text n table clauses order =
    codes "SELECT TOP "
    ++ (itoa_ℤ n ++ (codes " * FROM " ++ (bracketed table ++ (where_text clauses ++ order))))

-- strings.TrimRight(s, " ") on the strings
abbrev pub trim_cell : Bool → Cell → Cell
trim_cell true (Cell.str s) = Cell.str (trim_right (λ c. c == b' ') s)
trim_cell _ c = c

-- the cells of a row; a repeated column name keeps its last cell
unfoldable pub fill_row : Bool → List Bytes → List ColumnType → List Value → Row → Row
fill_row trim (name ∷ names) (ct ∷ types) (raw ∷ raws) row =
    fill_row trim names types raws
      (insert name (trim_cell trim (normalize_value (some ct) raw)) row)
fill_row trim _ _ _ row = row

abbrev pub add_row : Bool → Row → Result (List Row) → Result (List Row)
add_row keep row (ok rows) = ok (if keep then row ∷ rows else rows)
add_row keep row (err e) = err e

-- the loop over the rows; the number counts the rows scanned before
unfoldable pub scan_loop :
    Bool → List Bytes → List ColumnType → ℤ → ℕ → List (Result (List Value)) → Result (List Row)
scan_loop trim names types skip idx [] = ok []
scan_loop trim names types skip idx (err e ∷ scans) = err (Error.wrap scan_row e)
scan_loop trim names types skip idx (ok raws ∷ scans) =
    add_row (ltb_ℤ skip (pos (idx + 1))) (fill_row trim names types raws [])
      (scan_loop trim names types skip (idx + 1) scans)

abbrev pub finished : List Bytes → Option Error → Result (List Row) → Result QueryResult
finished names failure (err e) = err e
finished names none (ok rows) = ok (record { columns = names; rows = rows })
finished names (some e) (ok rows) = err e

-- scanRows, after the metadata
abbrev pub scan_with :
    Rows → ℤ → Bool → Result (List Bytes) → Result (List ColumnType) → Result QueryResult
scan_with rows skip trim (err e) types = err e
scan_with rows skip trim (ok names) (err e) = err e
scan_with rows skip trim (ok names) (ok types) =
    finished names rows.failure (scan_loop trim names types skip 0 rows.scans)

unfoldable pub scan_rows : Rows → ℤ → Bool → Result QueryResult
scan_rows rows skip trim = scan_with rows skip trim rows.columns rows.column_types

-- QueryTable
unfoldable pub run_query_table : Db → Bytes → QueryOpts → ℤ → Exec Session QueryResult
run_query_table db table opts max_rows = do
  (clauses, args) ← build_where table opts.filters
  order ← build_order table opts.sort_by opts.sort_desc
  rows ← in_context (query_table table) (
      query_context db
        (select_text (effective_limit opts.limit max_rows +ℤ opts.offset) table clauses order) args)
  lift (scan_rows rows opts.offset opts.trim_whitespace)

-- ExecuteSQL
unfoldable pub run_execute_sql : Db → Bytes → List Value → ℤ → Bool → Exec Session QueryResult
run_execute_sql db query params max_rows trim = do
  lift (validate_read_only_sql query)
  rows ← in_context execute_sql (query_context db (enforce_top_n query max_rows) params)
  lift (scan_rows rows (pos 0) trim)
