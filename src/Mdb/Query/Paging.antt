-- ===== src/Mdb/Query/Paging.antt =====
-- Limit and offset: QueryTable returns the page of the selection that was asked for.
use mdbapi.Base.{
  ℕ, suc, ◌+◌, ◌-◌, ◌^◌, ◌<◌, ◌≡◌, Bool, none, List, [], ◌∷◌, map, arith, take, drop, drop-nil,
  drop-take, Bool-cases, inl, inr,
}
use mdbapi.Base.Int.{ℤ, pos, ltb_ℤ, +ℤ-pos}
use mdbapi.Strings.{Bytes}
use mdbapi.Mdb.Errors.{ok}
use mdbapi.Mdb.Types.{Value, ColumnType}
use mdbapi.Mdb.Schema.{Rows, Db, Session, query_context}
use mdbapi.Mdb.Query.{
  QueryOpts, Row, build_where, build_order, select_text, effective_limit, fill_row, scan_loop,
  scan_rows, run_query_table,
}

abbrev pub rows_of : Bool → List Bytes → List ColumnType → List (List Value) → List Row
rows_of trim names types = map (λ raws. fill_row trim names types raws [])

-- The loop skips as many rows as the offset has left.
scan_loop-drop :
    (trim : Bool) (names : List Bytes) (types : List ColumnType) (k idx : ℕ)
    (rs : List (List Value))
    → scan_loop trim names types (pos k) idx (map ok rs)
      ≡ ok (rows_of trim names types (drop (k - idx) rs))
unfolding scan_loop
scan_loop-drop trim names types k idx [] = rw (drop-nil (k - idx))
scan_loop-drop trim names types k idx (r ∷ rs) = elim (Bool-cases (ltb_ℤ (pos k) (pos (idx + 1)))) [
  | inl keep ↦
      let now : k - idx ≡ 0 = ground arith in
      let later : k - (idx + 1) ≡ 0 = ground arith in
      rw (scan_loop-drop trim names types k (idx + 1) rs, keep, now, later)
  | inr skip ↦
      let now : k - idx ≡ suc (k - (idx + 1)) = ground arith in
      rw (scan_loop-drop trim names types k (idx + 1) rs, skip, now)
]

-- QueryTable returns the page that was asked for. Suppose that the columns of the filters and of
-- the order are accepted, that the limit in force is `l` and the offset `o`, and that the database
-- answers the statement with the first `l + o` rows of a selection, as TOP asks it to. Then the
-- result is the selection without its first `o` rows, cut off after `l` rows.
pub run_query_table_page :
    (db : Db) (table : Bytes) (opts : QueryOpts) (m : ℤ) (s s' s'' : Session) {clauses : List Bytes}
    {args : List Value} {order : Bytes} (l o : ℕ) (rows : Rows) {names : List Bytes}
    {types : List ColumnType} (selection : List (List Value))
    → build_where table opts.filters s ≡ (ok (clauses, args), s')
    → build_order table opts.sort_by opts.sort_desc s' ≡ (ok order, s'')
    → effective_limit opts.limit m ≡ pos l
    → opts.offset ≡ pos o
    → l + o < 2 ^ 63
    → db.answer s''.sent
        (record { text = select_text (pos (l + o)) table clauses order; args = args })
      ≡ ok rows
    → rows.columns ≡ ok names
    → rows.column_types ≡ ok types
    → rows.failure ≡ none
    → rows.scans ≡ map ok (take (l + o) selection)
    → (run_query_table db table opts m s).0
      ≡ ok (record {
        columns = names;
        rows = rows_of opts.trim_whitespace names types (take l (drop o selection));
      })
unfolding run_query_table query_context scan_rows
run_query_table_page db table opts m s s' s'' {clauses} {args} {order} l o rows {names} {types}
      selection hw ho hl hof fits answered hc ht hf hs =
    let trim = opts.trim_whitespace in
    let whole : o - 0 ≡ o = omega arith in
    rw (
      hw,
      ho,
      hl,
      hof,
      +ℤ-pos l o fits,
      answered,
      hc,
      ht,
      hf,
      hs,
      scan_loop-drop trim names types o 0 (take (l + o) selection),
      whole,
      drop-take o l selection,
    )
