-- ===== src/Integration/Program.antt =====
-- `main` of cmd/integration/main.go: the search, the start of the server, the checks and the exit
-- code. The listener, the client and the server's end are parameters.
pub mod Exiting
use mdbapi.Base.{
  ℕ, Bool, true, false, Option, none, some, List, [], ◌∷◌, ◌++◌, if◌then◌else◌, is_nil,
}
use mdbapi.Strings.{Bytes}
use mdbapi.Mdb.Errors.{Error, Result, ok, err}
use mdbapi.Mdb.Driver.{Odbc}
use mdbapi.Mdb.Pool.{Pool, DbConfig, new_pool}
use mdbapi.Config.Glob.{FilePath}
use mdbapi.Config.Expand.{after}
use mdbapi.Integration.Aliases.{find_mdb_files, make_db_configs}
use mdbapi.Integration.Client.{Runner, Client, fail}
use mdbapi.Integration.Waiting.{Attempt, wait_for_health}
use mdbapi.Integration.Database.{run_checks, exit_code}

pub record Outside : Type 0 where
  pub paths : FilePath
  -- the error of an entry that WalkDir cannot read
  pub walk_error : Error
  pub odbc : Odbc
  -- net.Listen succeeds
  pub listens : Bool
  -- the requests to the health route, by the time in milliseconds
  pub health : ℕ → Attempt
  pub start : ℕ
  -- the client of the server over a pool
  pub client : Pool → Client
  -- the server ends with an error other than ErrServerClosed
  pub serve_fails : Bool

-- the files of all directories, in the order of the flags
unfoldable pub all_files : Outside → List Bytes → Result (List Bytes)
all_files out [] = ok []
all_files out (dir ∷ dirs) =
    let rest = all_files out dirs in
    after (find_mdb_files out.paths out.walk_error dir)
      (λ found. after rest (λ files. ok (found ++ files)))

abbrev pub startup_timeout : ℕ
startup_timeout = 20000

-- fatalf
abbrev pub fatal : ℕ
fatal = 1

-- behind the start of the server
abbrev pub finished : Outside → Runner → Runner
finished out r = if out.serve_fails then fail r else r

abbrev pub checked : Outside → List DbConfig → Pool → Runner
checked out cfgs pool = finished out (run_checks (out.client pool) pool cfgs)

abbrev pub when_healthy : Outside → List DbConfig → Option (Result (Unit {0})) → Option ℕ
when_healthy out cfgs none = none
when_healthy out cfgs (some (err e)) = some fatal
when_healthy out cfgs (some (ok _)) = some (exit_code (checked out cfgs (new_pool out.odbc cfgs)))

unfoldable pub serve : Outside → ℕ → List DbConfig → Option ℕ
serve out rounds cfgs =
    let health = wait_for_health out.health rounds out.start startup_timeout in
    if out.listens then when_healthy out cfgs health else some fatal

abbrev pub found : Outside → ℕ → Result (List Bytes) → Option ℕ
found out rounds (err e) = some fatal
found out rounds (ok files) =
    let served = serve out rounds (make_db_configs out.paths files) in
    if is_nil files then some fatal else served

-- main, for so many rounds of the wait at most; `none` is a wait that goes on
unfoldable pub main : Outside → ℕ → List Bytes → Option ℕ
main out rounds dirs =
    let searched = found out rounds (all_files out dirs) in
    if is_nil dirs then some fatal else searched
