-- ===== src/Probing/Program.antt =====
-- `main` of cmd/probe/main.go, behind its flags. An argument that is empty is one that is not given.
use mdbapi.Base.{Option, some, List, [], ◌∷◌, if◌then◌else◌, is_nil, ◌>>=◌}
use mdbapi.Base.Int.{ℤ}
use mdbapi.Strings.{Bytes}
use mdbapi.Mdb.Errors.{Error, Result, ok, err}
use mdbapi.Config.Glob.{Visit}
use mdbapi.Probing.{Outside, Line, find_mdb_files, probe_file}

-- what the program comes to: an exit with 1, or the driver's line and the lines of each file
pub data Outcome : Type 0 where
  scan_failed : Error → Outcome
  none_found : Outcome
  usage : Outcome
  report : Result Bytes → List (Bytes × List Line) → Outcome

-- the loop over the files; `none` is a panic, as in probe_file
unfoldable pub probe_files : Outside → ℤ → List Bytes → Option (List (Bytes × List Line))
probe_files out max_rows [] = some []
probe_files out max_rows (f ∷ fs) = do
  lines ← probe_file out max_rows f
  more ← probe_files out max_rows fs
  some ((f, lines) ∷ more)

-- both parts, over what ProbeDriver returns
unfoldable pub reported : Outside → Result Bytes → ℤ → List Bytes → Option Outcome
reported out driver max_rows files = do
  reports ← probe_files out max_rows files
  some (report driver reports)

abbrev pub searched : Outside → Result Bytes → ℤ → Result (List Bytes) → Option Outcome
searched out driver max_rows (err e) = some (scan_failed e)
searched out driver max_rows (ok files) =
    let reports = reported out driver max_rows files in
    if is_nil files then some none_found else reports

-- main, with what WalkDir comes by in the directory
unfoldable pub main :
    Outside → Result Bytes → Error → (Bytes → List Visit) → Bytes → ℤ → List Bytes → Option Outcome
main out driver walk_error walk dir max_rows args =
    let by_dir = searched out driver max_rows (find_mdb_files walk_error (walk dir)) in
    let by_args = reported out driver max_rows args in
    if is_nil dir then (if is_nil args then some usage else by_args) else by_dir
