-- ===== src/Probing.antt =====
-- cmd/probe/main.go: the tool that prints the values of a database. What it prints is a list of
-- lines; JSON, the file system and database/sql are parameters. The Go type that is printed beside
-- a value is left out.
pub mod Recognising
pub mod Program
mod Tests
use mdbapi.Base.{
  ℕ, suc, ◌+◌, Bool, true, false, not, ◌||◌, Option, none, some, List, [], ◌∷◌, ◌++◌, map, ltb,
  ◌==◌, if◌then◌else◌, is_nil, length, take, ◌>>=◌,
}
use mdbapi.Base.Int.{ℤ}
use mdbapi.Strings.{Bytes, codes, to_lower, has_suffix}
use mdbapi.Strings.Decimal.{itoa_ℤ}
use mdbapi.Mdb.Errors.{Error, Result, ok, err}
use mdbapi.Mdb.Types.{Value, Cell, ColumnType, normalize_value}
use mdbapi.Mdb.Schema.{Statement, Rows, Db}
use mdbapi.Mdb.Listing.{ScanName, ask, names_of}
use mdbapi.Config.Expand.{after}
use mdbapi.Config.Glob.{Visit}

abbrev pub is_database_path : Bytes → Bool
is_database_path path =
    let lower = to_lower path in
    has_suffix lower (codes ".mdb") || has_suffix lower (codes ".accdb")

-- findMDBFiles: the callback of WalkDir over what it comes by, in its order
unfoldable pub find_mdb_files : Error → List Visit → Result (List Bytes)
find_mdb_files e [] = ok []
find_mdb_files e (v ∷ vs) =
    let rest = find_mdb_files e vs in
    if v.failed
    then err e
    else if v.is_dir || not (is_database_path v.path)
    then rest
    else after rest (λ files. ok (v.path ∷ files))

-- what is outside: json.Marshal and %v of a raw and of a normalised value, sql.Open and Ping
pub record Outside : Type 0 where
  pub raw_json : Value → Result Bytes
  pub cell_json : Cell → Result Bytes
  pub raw_text : Value → Bytes
  pub cell_text : Cell → Bytes
  pub is_null : Value → Bool
  pub is_null_cell : Cell → Bool
  pub scan : ScanName
  pub open_conn : Bytes → Result Db
  pub ping : Db → Option Error

-- the cut of formatSample
unfoldable pub shortened : Bytes → Bytes
shortened s = if ltb 60 (length s) then take 57 s ++ codes "..." else s

-- formatSample, on whether the value is nil, its JSON, and its text
unfoldable pub format_sample : Bool → Result Bytes → Bytes → Bytes
format_sample true json text = codes "NULL"
format_sample false (err e) text = text
format_sample false (ok s) text = shortened s

abbrev pub read_only_conn : Bytes → Bytes
read_only_conn path =
    codes "DRIVER={Microsoft Access Driver (*.mdb, *.accdb)};DBQ=" ++ (path ++ codes ";ReadOnly=1;")

abbrev pub pinged : Outside → Db → Option Error → Result Db
pinged out db none = ok db
pinged out db (some e) = err e

-- openReadOnly
unfoldable pub open_read_only : Outside → Bytes → Result Db
open_read_only out path =
    after (out.open_conn (read_only_conn path)) (λ db. pinged out db (out.ping db))

abbrev pub msys_query : Bytes
msys_query =
    codes
      "SELECT Name FROM MSysObjects WHERE (Type In (1,4)) AND (Flags In (0,-2147483648)) ORDER BY Name"

abbrev pub fallback_query : Bytes
fallback_query =
    codes
      "SELECT MSysObjects.Name FROM MSysObjects WHERE MSysObjects.Type=1 AND MSysObjects.Flags=0"

-- listTablesViaMSys and listTablesViaFallback, by their query
unfoldable pub list_by :
    Outside → Db → Bytes → List Statement → Result (List Bytes) × List Statement
list_by out db query sent =
    let (r, sent') = ask db query sent in (after r (names_of out.scan), sent')

-- what is printed
pub data Line : Type 0 where
  open_failed : Line
  msys_failed : Line
  fallback_failed : Line
  table_count : ℕ → Line
  heading : Bytes → Line
  query_failed : Line
  column : Bytes → Bytes → Bool → Line
  scan_failed : Line
  -- a column, the number of the row, the value and the normalised value
  cell : Bytes → ℕ → Bytes → Bytes → Line
  no_rows : Line

abbrev pub column_line : ColumnType → Line
column_line ct = column ct.name ct.database_type_name ct.nullable

-- the cells of a row; `none` is a panic, for a name without a column type or a value
unfoldable pub cells : Outside → ℕ → List Bytes → List ColumnType → List Value → Option (List Line)
cells out row [] types raws = some []
cells out row (name ∷ names) (ct ∷ types) (raw ∷ raws) = do
  rest ← cells out row names types raws
  let normalized = normalize_value (some ct) raw
  some (
      cell name row (format_sample (out.is_null raw) (out.raw_json raw) (out.raw_text raw)) (
        format_sample (out.is_null_cell normalized) (out.cell_json normalized)
          (out.cell_text normalized))
      ∷ rest)
cells out row (name ∷ names) _ _ = none

-- the loop over the rows: a scan that fails is told and passed by. The number counts the rows.
unfoldable pub row_lines :
    Outside → List Bytes → List ColumnType → ℕ → List (Result (List Value)) → Option (List Line × ℕ)
row_lines out names types n [] = some ([], n)
row_lines out names types n (err e ∷ scans) = do
  (lines, count) ← row_lines out names types n scans
  some (scan_failed ∷ lines, count)
row_lines out names types n (ok raws ∷ scans) = do
  here ← cells out (suc n) names types raws
  (lines, count) ← row_lines out names types (suc n) scans
  some (here ++ lines, count)

-- the errors of ColumnTypes and Columns are dropped
abbrev pub or_none {ℓ} : {A : Type ℓ} → Result (List A) → List A
or_none (ok l) = l
or_none (err e) = []

abbrev pub or_no_rows : List Line × ℕ → List Line
or_no_rows (lines, n) = lines ++ (if n == 0 then no_rows ∷ [] else [])

abbrev pub table_lines : Outside → Result Rows → Option (List Line)
table_lines out (err e) = some (query_failed ∷ [])
table_lines out (ok rows) = do
  body ← row_lines out (or_none rows.columns) (or_none rows.column_types) 0 rows.scans
  some (map column_line (or_none rows.column_types) ++ or_no_rows body)

abbrev pub sample_query : ℤ → Bytes → Bytes
sample_query max_rows table =
    codes "SELECT TOP " ++ (itoa_ℤ max_rows ++ (codes " * FROM [" ++ (table ++ codes "]")))

-- probeTable
unfoldable pub probe_table :
    Outside → Db → ℤ → Bytes → List Statement → Option (List Line × List Statement)
probe_table out db max_rows table sent =
    let (r, sent') = ask db (sample_query max_rows table) sent in
    (do lines ← table_lines out r; some (heading table ∷ lines, sent'))

unfoldable pub probe_tables : Outside → Db → ℤ → List Bytes → List Statement → Option (List Line)
probe_tables out db max_rows [] sent = some []
probe_tables out db max_rows (t ∷ ts) sent = do
  (lines, sent') ← probe_table out db max_rows t sent
  more ← probe_tables out db max_rows ts sent'
  some (lines ++ more)

abbrev pub with_fallback :
    Outside → Db → ℤ → Result (List Bytes) × List Statement → Option (List Line)
with_fallback out db max_rows (err e, sent) = some (msys_failed ∷ fallback_failed ∷ [])
with_fallback out db max_rows (ok tables, sent) = do
  lines ← probe_tables out db max_rows tables sent
  some (msys_failed ∷ table_count (length tables) ∷ lines)

abbrev pub with_msys : Outside → Db → ℤ → Result (List Bytes) × List Statement → Option (List Line)
with_msys out db max_rows (err e, sent) =
    with_fallback out db max_rows (list_by out db fallback_query sent)
with_msys out db max_rows (ok tables, sent) = do
  lines ← probe_tables out db max_rows tables sent
  some (table_count (length tables) ∷ lines)

abbrev pub probe_opened : Outside → ℤ → Result Db → Option (List Line)
probe_opened out max_rows (err e) = some (open_failed ∷ [])
probe_opened out max_rows (ok db) = with_msys out db max_rows (list_by out db msys_query [])

-- probeFile
unfoldable pub probe_file : Outside → ℤ → Bytes → Option (List Line)
probe_file out max_rows path = probe_opened out max_rows (open_read_only out path)
