-- ===== src/Mdb/Driver.antt =====
-- internal/mdb/driver_windows.go: which ODBC driver is used and how a database is opened.
-- The registry and database/sql with its ODBC driver are parameters.
pub mod Choice
mod Tests
use mdbapi.Base.{
  Bool, true, false, not, ◌&&◌, Option, none, some, List, [], ◌∷◌, ◌++◌, if◌then◌else◌, is_nil, any,
}
use mdbapi.Strings.{Bytes, codes, str_eq, contains}
use mdbapi.Mdb.Errors.{Error, Result, ok, err, external}
use mdbapi.Mdb.Schema.{Db}

abbrev pub preferred_access_drivers : List Bytes
preferred_access_drivers =
    codes "Microsoft Access Driver (*.mdb, *.accdb)" ∷ codes "Microsoft Access Driver (*.mdb)" ∷ []

abbrev pub member : Bytes → List Bytes → Bool
member d = any (str_eq d)

unfoldable pub keep : (Bytes → Bool) → List Bytes → List Bytes
keep p [] = []
keep p (d ∷ ds) = let rest = keep p ds in if p d then d ∷ rest else rest

-- the keys of the map of installed drivers, in the order in which it is walked
unfoldable pub mdb_drivers : List Bytes → List Bytes
mdb_drivers = keep (λ n. contains n (codes ".mdb"))

-- the preferred drivers that are installed, then the others
unfoldable pub ordered : List Bytes → List Bytes
ordered installed =
    keep (λ d. member d installed) preferred_access_drivers
    ++ keep (λ d. not (member d preferred_access_drivers)) installed

abbrev pub or_preferred : List Bytes → List Bytes
or_preferred [] = preferred_access_drivers
or_preferred (d ∷ ds) = d ∷ ds

-- `none` is a registry that cannot be read
unfoldable pub installed_access_drivers : Option (List Bytes) → List Bytes
installed_access_drivers none = preferred_access_drivers
installed_access_drivers (some names) = or_preferred (ordered (mdb_drivers names))

-- sql.Open("odbc", connStr) and Ping
pub record Odbc : Type 0 where
  pub open_conn : Bytes → Result Db
  pub ping : Db → Option Error
  -- the names under ODBCINST.INI\ODBC Drivers
  pub registry : Option (List Bytes)

abbrev pub conn_string : Bytes → Bytes → Bytes
conn_string driver path =
    codes "DRIVER={" ++ (driver ++ (codes "};DBQ=" ++ (path ++ codes ";Uid=Admin;Pwd=;")))

abbrev pub pinged : Option Error → Db → Bytes → Result (Db × Bytes)
pinged none db conn = ok (db, conn)
pinged (some e) db conn = err e

abbrev pub opened : Odbc → Bytes → Result Db → Result (Db × Bytes)
opened odbc conn (err e) = err e
opened odbc conn (ok db) = pinged (odbc.ping db) db conn

unfoldable pub open_db_with_driver : Odbc → Bytes → Bytes → Result (Db × Bytes)
open_db_with_driver odbc path driver =
    let conn = conn_string driver path in opened odbc conn (odbc.open_conn conn)

abbrev pub open_first : Odbc → Bytes → List Bytes → Result (Db × Bytes)
open_first odbc path [] = err (
    external
      (codes "no Microsoft Access ODBC driver found; install Access Database Engine 2010 or 2016"))
open_first odbc path (d ∷ ds) = open_db_with_driver odbc path d

-- openDB
unfoldable pub open_db : Odbc → Bytes → Bytes → Result (Db × Bytes)
open_db odbc path [] = open_first odbc path (installed_access_drivers odbc.registry)
open_db odbc path (c ∷ driver) = open_db_with_driver odbc path (c ∷ driver)
