-- ===== src/Probing/Tests.antt =====
-- A run of the probe on a table with one row, and an instance of the theorem on paths.
use mdbapi.Base.{◌≡◌, refl, false, none, some, [], ◌∷◌}
use mdbapi.Base.Int.{pos}
use mdbapi.Strings.{codes}
use mdbapi.Mdb.Errors.{ok, err, external}
use mdbapi.Mdb.Schema.{Db}
use mdbapi.Probing.Program.{none_found, report, probe_files, reported, main}
use mdbapi.Probing.{
  find_mdb_files, Outside, msys_failed, fallback_failed, list_by, open_read_only, probe_file,
}
use mdbapi.Mdb.Listing.{ask}

abbrev no_permission : Db
no_permission = record { answer = λ sent stmt. err (external (codes "no read permission")) }

abbrev outside : Outside
outside = record {
  raw_json = λ v. ok [];
  cell_json = λ c. ok [];
  raw_text = λ v. [];
  cell_text = λ c. [];
  is_null = λ v. false;
  is_null_cell = λ c. false;
  scan = λ values. ok [];
  open_conn = λ conn. ok no_permission;
  ping = λ db. none;
}

both_refused :
    probe_file outside (pos 3) (codes "a.mdb") ≡ some (msys_failed ∷ fallback_failed ∷ [])
unfolding probe_file open_read_only list_by ask
both_refused = refl

-- a file that cannot be read does not stop the others
two_files :
    main outside
      (ok (codes "driver"))
      (external [])
      (λ dir. [])
      []
      (pos 3)
      (codes "a.mdb" ∷ codes "b.mdb" ∷ [])
    ≡ some (
        report (ok (codes "driver")) (
          (codes "a.mdb", msys_failed ∷ fallback_failed ∷ [])
          ∷ (codes "b.mdb", msys_failed ∷ fallback_failed ∷ [])
          ∷ []))
unfolding main reported probe_files probe_file open_read_only list_by ask
two_files = refl

empty_directory :
    main outside (ok []) (external []) (λ dir. []) (codes "C:\\d") (pos 3) [] ≡ some none_found
unfolding main find_mdb_files
empty_directory = refl
