-- ===== src/Command/Check.antt =====
-- `checkCmd` and `testDatabase` of cmd/mdbapi/main.go.
pub mod Reporting
use mdbapi.Base.{
  Bool, true, false, ◌||◌, Option, none, some, List, [], ◌∷◌, ◌++◌, if◌then◌else◌, length, any,
}
use mdbapi.Strings.{Bytes, codes, has_prefix, join}
use mdbapi.Strings.Decimal.{itoa}
use mdbapi.Mdb.Errors.{Error, Result, ok, err}
use mdbapi.Mdb.Schema.{Db}
use mdbapi.Mdb.Driver.{Odbc}
use mdbapi.Mdb.Listing.{ScanName, list_tables}
use mdbapi.Mdb.Pool
use mdbapi.Mdb.Pool.{new_pool}
use mdbapi.Mdb.Probe.{probe_driver}
use mdbapi.Config.{DatabaseConfig}
use mdbapi.Config.Check.{Problem}
use mdbapi.Config.Load.{System, Loaded, loaded, invalid, failed, load}

-- the UTF-8 bytes of the two marks
abbrev pub cross : Bytes
cross = 0xe2 ∷ 0x9c ∷ 0x97 ∷ []

abbrev pub tick : Bytes
tick = 0xe2 ∷ 0x9c ∷ 0x93 ∷ []

-- what the check has outside of the repository: sort.Strings and Error.Error too
pub record Outside : Type 0 where
  pub odbc : Odbc
  pub scan : ScanName
  pub sort : List Bytes → List Bytes
  pub text : Error → Bytes
  -- ProbeDriver, which the probe of the driver gives
  pub probe : Result Bytes

abbrev pub tables_text : Outside → Result (List Bytes) → Bytes
tables_text out (err e) = cross ++ (codes " list tables: " ++ out.text e)
tables_text out (ok names) =
    itoa (length names) ++ (codes " (" ++ (join (out.sort names) (codes ", ") ++ codes ")"))

-- `none` is a panic: the error of Get is dropped, and ListTables is called on a nil *sql.DB
abbrev pub tested : Outside → Result Db → Option (Bytes × Bytes)
tested out (err e) = none
tested out (ok db) =
    some (tick ++ codes " connected", tables_text out (list_tables out.scan db []).0)

-- testDatabase: the status and the tables
unfoldable pub test_database : Outside → Bytes → Bytes → Option (Bytes × Bytes)
test_database out path driver = tested out (
    Pool.get
      (new_pool out.odbc (record { alias = codes "test"; path = path; driver = driver } ∷ []))
      (codes "test"))

-- a row of the table that is printed
pub record CheckRow : Type 0 where
  pub alias : Bytes
  pub path : Bytes
  pub status : Bytes
  pub tables : Bytes

abbrev pub add_row :
    DatabaseConfig → Option (Bytes × Bytes) → Option (List CheckRow) → Option (List CheckRow)
add_row d none rest = none
add_row d (some result) none = none
add_row d (some (status, tables)) (some rows) =
    some (record { alias = d.alias; path = d.path; status = status; tables = tables } ∷ rows)

-- the loop over the databases
unfoldable pub test_databases : Outside → List DatabaseConfig → Option (List CheckRow)
test_databases out [] = some []
test_databases out (d ∷ ds) = add_row d (test_database out d.path d.driver) (test_databases out ds)

pub data Outcome : Type 0 where
  config_error : Loaded → Outcome
  panicked : Outcome
  -- the table, and whether the command exits with 1
  reported : List CheckRow → Bool → Outcome

abbrev pub is_err {ℓ} : {A : Type ℓ} → Result A → Bool
is_err (ok a) = false
is_err (err e) = true

abbrev pub has_error : Outside → List CheckRow → Bool
has_error out rows = is_err out.probe || any (λ (r : CheckRow). has_prefix r.status cross) rows

abbrev pub report : Outside → Option (List CheckRow) → Outcome
report out none = panicked
report out (some rows) = reported rows (has_error out rows)

abbrev pub check_with : Outside → Loaded → Outcome
check_with out (failed e) = config_error (failed e)
check_with out (invalid ps) = config_error (invalid ps)
check_with out (loaded cfg) = report out (test_databases out cfg.databases)

-- checkCmd
unfoldable pub check_command : Outside → System → Bytes → Outcome
check_command out sys path = check_with out (load sys path)
