-- ===== src/Mdb/Driver/Tests.antt =====
-- Runs of internal/mdb/driver_windows.go, and an instance of the theorem.
use mdbapi.Base.{◌≡◌, refl, some, [], ◌∷◌, List}
use mdbapi.Strings.{Bytes, codes, running_strings}
use mdbapi.Mdb.Driver.{keep, mdb_drivers, ordered, installed_access_drivers}

abbrev listed : List Bytes
listed =
    codes "SQL Server"
    ∷ codes "Driver do Microsoft Access (*.mdb)"
    ∷ codes "Microsoft Access Driver (*.mdb)"
    ∷ []

preferred_first :
    installed_access_drivers (some listed)
    ≡ codes "Microsoft Access Driver (*.mdb)" ∷ codes "Driver do Microsoft Access (*.mdb)" ∷ []
unfolding running_strings keep mdb_drivers ordered installed_access_drivers
preferred_first = refl
