-- ===== src/Service/Lifecycle/Tests.antt =====
-- Instances of the theorems on the start and stop of the service.
use mdbapi.Base.{◌≡◌, ◌⊎◌, refl, true, false, none, some, []}
use mdbapi.Strings.{Bytes, codes}
use mdbapi.Mdb.Errors.{Error, ok, err, external, listen_on}
use mdbapi.Mdb.Schema.{Db}
use mdbapi.Mdb.Driver.{Odbc}
use mdbapi.Config.Load.Tests.{system, result, running_config}
use mdbapi.Updater.Swap.{Disk, Faults}
use mdbapi.Tunnel.{tcp, new_provider}
use mdbapi.Service.{open_databases}
use mdbapi.Service.Lifecycle.{Outside, Serve, new_program, server_closed, run, stop}
use mdbapi.Service.Lifecycle.Stopping.{
  IsServing, IsServed, opened_dbs, by_provider, stop-run, run-loaded,
}

abbrev blank_db : Db
blank_db = record { answer = λ sent stmt. err (external (codes "no such table")) }

abbrev opens : Odbc
opens = record { open_conn = λ conn. ok blank_db; ping = λ db. none; registry = none }

abbrev outside : Outside
outside = record {
  odbc = opens;
  tagged = false;
  bind = λ b. ok (codes "127.0.0.1:8080");
  new_watcher = λ entries. true;
  serve = λ how addr. server_closed;
  executable = true;
  remove_fails = false;
}

abbrev disk : Disk
disk = record { exe = some (codes "v1"); old = none }

stop-run_example :
    let p = (run outside result (new_program disk)).1 in
    ((stop p).0
      ≡ by_provider outside result (opened_dbs outside result) (new_provider false result.tunnel))
    × ((stop p).1.pool ≡ some (record (open_databases opens result) { dbs = [] }))
stop-run_example = stop-run outside result disk

run-loaded_example :
    ((e : Error) × (outside.bind (tcp result.server.listen) ≡ err e)
      × ((run outside result (new_program disk)).0
          ≡ err (Error.wrap (listen_on result.server.listen) e)))
    ⊎ ((addr : Bytes) × (how : Serve) × (outside.bind (tcp result.server.listen) ≡ ok addr)
        × IsServing result.server.tls_cert result.server.tls_key how
        × IsServed (outside.serve how addr) (run outside result (new_program disk)).0)
unfolding running_config
run-loaded_example = run-loaded system (codes "config.yaml") result outside disk refl refl

abbrev stuck_removal : Faults
stuck_removal = record {
  first_remove_fails = false;
  last_remove_fails = true;
  rename_fails = false;
  copy_fails = none;
  restore_fails = false;
}
