-- ===== src/Mdb/Listing.antt =====
-- `ListTables` of internal/mdb/schema.go: the table names by a query. Scan into a string is a
-- parameter of package database/sql.
use mdbapi.Base.{Option, none, some, List, [], ◌∷◌, ◌++◌}
use mdbapi.Strings.{Bytes, codes}
use mdbapi.Mdb.Errors.{Error, Result, ok, err, list_tables_query}
use mdbapi.Mdb.Exec.{Exec, lift, in_context, ◌>>=◌}
use mdbapi.Mdb.Types.{Value}
use mdbapi.Mdb.Schema.{Statement, Rows, Db}

-- rows.Scan(&name)
abbrev pub ScanName : Type 0
ScanName = List Value → Result Bytes

-- db.QueryContext without arguments, with the statements sent so far as the state
unfoldable pub ask : Db → Bytes → Exec (List Statement) Rows
ask db text sent =
    let stmt : Statement = record { text = text; args = [] } in
    (db.answer sent stmt, sent ++ stmt ∷ [])

abbrev pub with_head : Result Bytes → Result (List Bytes) → Result (List Bytes)
with_head (err e) rest = err e
with_head (ok name) (err e) = err e
with_head (ok name) (ok names) = ok (name ∷ names)

-- the loop over the rows; the list of the error cases is dropped
unfoldable pub scan_names : ScanName → List (Result (List Value)) → Result (List Bytes)
scan_names scan [] = ok []
scan_names scan (err e ∷ rows) = err e
scan_names scan (ok values ∷ rows) = with_head (scan values) (scan_names scan rows)

abbrev pub or_failure : Option Error → Result (List Bytes) → Result (List Bytes)
or_failure failure (err e) = err e
or_failure none (ok names) = ok names
or_failure (some e) (ok names) = err e

abbrev pub names_of : ScanName → Rows → Result (List Bytes)
names_of scan rows = or_failure rows.failure (scan_names scan rows.scans)

abbrev pub list_query : Bytes
list_query =
    codes "SELECT Name FROM MSysObjects "
    ++ (codes "WHERE (Type In (1,4)) AND (Flags In (0,-2147483648)) " ++ codes "ORDER BY Name")

-- ListTables
unfoldable pub list_tables : ScanName → Db → Exec (List Statement) (List Bytes)
list_tables scan db = do
  rows ← in_context list_tables_query (ask db list_query)
  lift (names_of scan rows)
