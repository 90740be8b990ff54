-- ===== src/Command/Check/Reporting.antt =====
-- What `checkCmd` of cmd/mdbapi/main.go finds out about the databases.
use mdbapi.Base.{
  ◌≡◌, refl, Bool, true, false, ◌++◌, Option, none, some, List, [], ◌∷◌, any, every, inl, inr,
}
use mdbapi.Base.Assoc.{lookup, insert}
use mdbapi.Strings.{Bytes, codes, str_eq, has_prefix}
use mdbapi.Mdb.Errors.{Result, ok, err, Result-cases}
use mdbapi.Mdb.Driver.{Odbc, open_db}
use mdbapi.Mdb.Pool
use mdbapi.Mdb.Pool.{new_pool, open_all}
use mdbapi.Config.{Config, DatabaseConfig}
use mdbapi.Config.Load.{System, loaded, load}
use mdbapi.Command.Check.{
  Outside, CheckRow, cross, tick, test_database, test_databases, add_row, panicked, reported,
  is_err, report, check_command,
}

abbrev pub is_ok {ℓ} : {A : Type ℓ} → Result A → Bool
is_ok (ok a) = true
is_ok (err e) = false

-- the database opens
abbrev pub opens : Odbc → DatabaseConfig → Bool
opens odbc d = is_ok (open_db odbc d.path d.driver)

-- the rows have no mark of an error
abbrev Fine : Option (List CheckRow) → Bool → Type 0
Fine none all_open = all_open ≡ false
Fine (some rows) all_open =
    (all_open ≡ true) × (any (λ (r : CheckRow). has_prefix r.status cross) rows ≡ false)

add_row-Fine :
    (d : DatabaseConfig) (tables : Bytes) (rest : Option (List CheckRow)) (all_open : Bool)
    → Fine rest all_open
    → Fine (add_row d (some (tick ++ codes " connected", tables)) rest) all_open
unfolding has_prefix
add_row-Fine d tables none all_open h = h
add_row-Fine d tables (some rows) all_open h = h

test_databases-Fine :
    (out : Outside) (ds : List DatabaseConfig)
    → Fine (test_databases out ds) (every (opens out.odbc) ds)
unfolding test_databases test_database new_pool open_all Pool.get lookup insert str_eq
test_databases-Fine out [] = (refl, refl)
test_databases-Fine out (d ∷ ds) = elim (Result-cases (open_db out.odbc d.path d.driver)) [
  | inr (e, bad) ↦ rw bad refl
  | inl ((db, conn), good) ↦
      rw good (add_row-Fine d _ (test_databases out ds) _ (test_databases-Fine out ds))
]

reported-Fine :
    (out : Outside) (rows : Option (List CheckRow)) (all_open : Bool)
    → Fine rows all_open
    → ((all_open ≡ false) → report out rows ≡ panicked)
      × ((all_open ≡ true)
          → (table : List CheckRow) × (report out rows ≡ reported table (is_err out.probe)))
reported-Fine out none all_open h = ((λ e. refl), λ e. absurd (cc))
reported-Fine out (some rows) all_open (h, fine) = (
  (λ e. absurd (cc)),
  λ e. (rows, elim (Result-cases out.probe) [ inl (a, p) ↦ rw (p, fine) | inr (x, p) ↦ rw p ]),
)

-- For a loaded configuration the check command panics if one of the databases does not open, and
-- prints no table then; if all open, it exits with an error exactly if the probe of the driver
-- failed, also when the tables of a database cannot be listed.
pub check_command-loaded :
    (out : Outside) (sys : System) (path : Bytes) (cfg : Config)
    → load sys path ≡ loaded cfg
    → ((every (opens out.odbc) cfg.databases ≡ false) → check_command out sys path ≡ panicked)
      × ((every (opens out.odbc) cfg.databases ≡ true)
          → (table : List CheckRow) × (check_command out sys path
              ≡ reported table (is_err out.probe)))
unfolding check_command
check_command-loaded out sys path cfg h =
    rw h (
      reported-Fine out (test_databases out cfg.databases) _
        (test_databases-Fine out cfg.databases))
