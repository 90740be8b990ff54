-- ===== src/Mdb/Query/Columns.antt =====
-- No column name reaches a statement of QueryTable unless it is in the table's schema.
use mdbapi.Base.{
  ◌≡◌, inl, inr, Bool, true, Option, none, some, List, [], ◌∷◌, arith, if◌then◌else◌, is_some, All,
  Option-cases,
}
use mdbapi.Base.Int.{ℤ}
use mdbapi.Base.Assoc.{lookup}
use mdbapi.Strings.{Bytes, bytes_eq}
use mdbapi.Mdb.Errors.{
  Error, ok, err, invalid_filter, invalid_sort_column, query_table, unknown_column,
}
use mdbapi.Mdb.Exec.{in_context}
use mdbapi.Mdb.Schema.{Db, Session, ColumnMeta, find_column, validate_column, query_context}
use mdbapi.Mdb.Schema.Laws.{knows, Extends, Extends-trans, validate_column_cached}
use mdbapi.Mdb.Schema.Grows.{
  Grows, Grows-bind, Grows-pure, Grows-in_context, Grows-lift, Grows-query_context,
  Grows-validate_column,
}
use mdbapi.Mdb.Query.{QueryOpts, QueryResult, build_where, build_order, run_query_table}

-- every filter is on a known column
abbrev pub FiltersKnown : Session → Bytes → List (Bytes × Bytes) → Type 0
FiltersKnown s table = All (λ f. knows s table f.0 ≡ true)

abbrev pub OrderKnown : Session → Bytes → Bytes → Type 0
OrderKnown s table [] = Unit
OrderKnown s table (c ∷ name) = knows s table (c ∷ name) ≡ true

FiltersKnown-Extends :
    {s s' : Session} (table : Bytes) (fs : List (Bytes × Bytes))
    → Extends s s'
    → FiltersKnown s table fs
    → FiltersKnown s' table fs
FiltersKnown-Extends table [] grows h = tt
FiltersKnown-Extends table (f ∷ fs) grows (hf, hfs) =
    (grows.at table f.0 hf, FiltersKnown-Extends table fs grows hfs)

build_where_grows :
    (table : Bytes) (fs : List (Bytes × Bytes)) (s : Session)
    → Grows (build_where table fs) s (λ _ s'. FiltersKnown s' table fs)
unfolding build_where
build_where_grows table [] s = Grows-pure ([], []) s tt
build_where_grows table ((col, val) ∷ fs) s =
    Grows-bind (in_context invalid_filter (validate_column table col)) _ s
      (Grows-in_context invalid_filter (validate_column table col) s
        (Grows-validate_column table col s))
      (λ _ s' _ known.
        Grows-bind (build_where table fs) _ s' (build_where_grows table fs s')
          (λ w s'' later rest. Grows-pure _ s'' (later.at table col known, rest)))

build_order_grows :
    (table name : Bytes) (desc : Bool) (s : Session)
    → Grows (build_order table name desc) s (λ _ s'. OrderKnown s' table name)
unfolding build_order
build_order_grows table [] desc s = Grows-pure [] s tt
build_order_grows table (c ∷ name) desc s =
    Grows-bind (in_context invalid_sort_column (validate_column table (c ∷ name))) _ s
      (Grows-in_context invalid_sort_column _ s (Grows-validate_column table (c ∷ name) s))
      (λ _ s' _ known. Grows-pure _ s' known)

OrderKnown-Extends :
    {s s' : Session} (table name : Bytes)
    → Extends s s'
    → OrderKnown s table name
    → OrderKnown s' table name
OrderKnown-Extends table [] grows h = tt
OrderKnown-Extends table (c ∷ name) grows h = grows.at table (c ∷ name) h

-- whatever the state is before
pub query_table_grows :
    (db : Db) (table : Bytes) (opts : QueryOpts) (m : ℤ) (s : Session)
    → Grows
        (run_query_table db table opts m)
        s
        (λ _ s'. FiltersKnown s' table opts.filters × OrderKnown s' table opts.sort_by)
unfolding run_query_table
query_table_grows db table opts m s =
    Grows-bind (build_where table opts.filters) _ s (build_where_grows table opts.filters s)
      (λ w s' _ filters.
        Grows-bind (build_order table opts.sort_by opts.sort_desc) _ s'
          (build_order_grows table opts.sort_by opts.sort_desc s')
          (λ order s'' later ordered.
            Grows-bind (in_context (query_table table) (query_context db _ w.1)) _ s''
              (Grows-in_context (query_table table) _ s'' (Grows-query_context db _ w.1 s''))
              (λ rows s3 more _. Grows-lift _ s3 (λ _. (
                FiltersKnown-Extends table opts.filters (Extends-trans later more) filters,
                OrderKnown-Extends table opts.sort_by more ordered,
              )))))

-- When QueryTable returns rows, every filter and the order are on columns that the schema of the
-- table, as it is cached afterwards, has.
pub run_query_table_known :
    (db : Db) (table : Bytes) (opts : QueryOpts) (m : ℤ) (s : Session) (r : QueryResult)
    → (run_query_table db table opts m s).0 ≡ ok r
    → FiltersKnown (run_query_table db table opts m s).1 table opts.filters
      × OrderKnown (run_query_table db table opts m s).1 table opts.sort_by
run_query_table_known db table opts m s r h = (query_table_grows db table opts m s).result r h

-- the first filter whose column the schema lacks
abbrev pub unknown_filter : List ColumnMeta → List (Bytes × Bytes) → Option Bytes
unknown_filter cols [] = none
unknown_filter cols ((col, val) ∷ fs) =
    let later = unknown_filter cols fs in if is_some (find_column col cols) then later else some col

build_where_unknown :
    (table : Bytes) (fs : List (Bytes × Bytes)) (s : Session) (cols : List ColumnMeta) (bad : Bytes)
    → lookup table s.columns.cache ≡ some cols
    → unknown_filter cols fs ≡ some bad
    → build_where table fs s ≡ (err (Error.wrap invalid_filter (unknown_column bad table)), s)
unfolding build_where
build_where_unknown table [] s cols bad hit h = cc
build_where_unknown table ((col, val) ∷ fs) s cols bad hit h =
    rw (validate_column_cached table col s cols hit) (elim (Option-cases (find_column col cols)) [
      | inl none_there ↦ let same : col ≡ bad = ground (arith, none_there) in rw (none_there, same)
      | inr (c, there) ↦
          rw (there, build_where_unknown table fs s cols bad hit (ground (arith, there)))
    ])

-- With the schema at hand, a filter on a column that it lacks ends QueryTable before anything is
-- sent: the error names the first such column and the session is unchanged.
pub run_query_table_unknown :
    (db : Db) (table : Bytes) (opts : QueryOpts) (m : ℤ) (s : Session) (cols : List ColumnMeta)
    (bad : Bytes)
    → lookup table s.columns.cache ≡ some cols
    → unknown_filter cols opts.filters ≡ some bad
    → run_query_table db table opts m s
      ≡ (err (Error.wrap invalid_filter (unknown_column bad table)), s)
unfolding run_query_table
run_query_table_unknown db table opts m s cols bad hit h =
    rw (build_where_unknown table opts.filters s cols bad hit h)
