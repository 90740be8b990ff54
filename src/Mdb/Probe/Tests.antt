-- ===== src/Mdb/Probe/Tests.antt =====
-- Runs of internal/mdb/probe.go, and an instance of the theorem.
use mdbapi.Base.{◌≡◌, refl, some}
use mdbapi.Strings.{codes, str_eq}
use mdbapi.Mdb.Errors.{ok, err, external}
use mdbapi.Mdb.Schema.{Db}
use mdbapi.Mdb.Probe.{contains_rounds, contains_str, contains, probe_driver}

abbrev blank_db : Db
blank_db = record { answer = λ sent stmt. err (external (codes "no such table")) }

missing_file :
    probe_driver
      (λ conn. ok blank_db)
      (λ db. some (external (codes "x"), codes "odbc: Could not find file"))
    ≡ ok (codes "driver loaded (file probe succeeded)")
unfolding str_eq contains_rounds contains_str contains probe_driver
missing_file = refl
