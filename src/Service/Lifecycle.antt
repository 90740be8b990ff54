-- ===== src/Service/Lifecycle.antt =====
-- `run` and `Stop` of internal/winservice/service.go: what a Program holds, in which order it is
-- taken and in which it is given back. The listener, the server and the clock are parameters, and
-- the goroutines are listed by what they run.
pub mod Stopping
mod Tests
use mdbapi.Base.{
  Bool, true, false, not, ◌&&◌, Option, none, some, List, [], ◌∷◌, ◌++◌, map, if◌then◌else◌, is_nil,
  is_some,
}
use mdbapi.Base.Int.{ℤ}
use mdbapi.Strings.{Bytes}
use mdbapi.Mdb.Errors.{Error, Result, ok, err, wrapping, tunnel_init, listen_on}
use mdbapi.Mdb.Exec.{Exec, lift, ◌>>=◌, ◌>>◌}
use mdbapi.Mdb.Schema.{Db}
use mdbapi.Mdb.Driver.{Odbc}
use mdbapi.Mdb.Pool
use mdbapi.Mdb.Pool.{Pool}
use mdbapi.Config.{Config, ServerConfig, UpdaterConfig, DatabaseConfig}
use mdbapi.Updater.Swap.{Disk, remove_old}
use mdbapi.Tunnel.{Provider, Bind, Closing, new_provider, listen}
use mdbapi.Tunnel
use mdbapi.Service.{open_databases}

-- http.Server, without its handler
pub record HttpServer : Type 0 where
  pub read_timeout : ℤ
  pub write_timeout : ℤ
  pub idle_timeout : ℤ
  pub max_header_bytes : ℤ

-- the goroutines
pub data Task : Type 0 where
  -- u.Start, with the settings of the updater
  updater : UpdaterConfig → Task
  restart_on_signal : Task
  glob_watcher : List DatabaseConfig → Task

pub record Program : Type 0 where
  pub cancel_ctx : Bool
  pub pool : Option Pool
  pub tun_prov : Option Provider
  pub http_srv : Option HttpServer
  pub tasks : List Task
  pub disk : Disk

-- NewProgram
abbrev pub new_program : Disk → Program
new_program disk = record {
  cancel_ctx = false;
  pool = none;
  tun_prov = none;
  http_srv = none;
  tasks = [];
  disk = disk;
}

-- ServeTLS or Serve
pub data Serve : Type 0 where
  plain : Serve
  tls : Bytes → Bytes → Serve

pub data ServeError : Type 0 where
  -- http.ErrServerClosed
  server_closed : ServeError
  failed : Error → ServeError

pub record Outside : Type 0 where
  pub odbc : Odbc
  -- the build tag tsnet
  pub tagged : Bool
  pub bind : Bind → Result Bytes
  -- watcher.New succeeds
  pub new_watcher : List DatabaseConfig → Bool
  pub serve : Serve → Bytes → ServeError
  -- os.Executable succeeds, and the removal of the old binary fails
  pub executable : Bool
  pub remove_fails : Bool

-- cleanupOldBinary
unfoldable pub cleanup_old_binary : Bool → Bool → Disk → Disk
cleanup_old_binary executable remove_fails d =
    if executable && is_some d.old then remove_old remove_fails d else d

-- filterServeError
unfoldable pub filter_serve_error : ServeError → Result (Unit {0})
filter_serve_error server_closed = ok tt
filter_serve_error (failed e) = err e

abbrev pub http_server : ServerConfig → HttpServer
http_server s = record {
  read_timeout = s.read_timeout;
  write_timeout = s.write_timeout;
  idle_timeout = s.idle_timeout;
  max_header_bytes = s.max_header_bytes;
}

-- steps 4 and 4b: the goroutines of a configuration
unfoldable pub background : Outside → Config → List Task
background out cfg =
    (if cfg.updater.enabled then updater cfg.updater ∷ restart_on_signal ∷ [] else [])
    ++ (if not (is_nil cfg.glob_entries) && out.new_watcher cfg.glob_entries
        then glob_watcher cfg.glob_entries ∷ []
        else [])

-- step 5
abbrev pub serving : ServerConfig → Serve
serving s =
    if not (is_nil s.tls_cert) && not (is_nil s.tls_key) then tls s.tls_cert s.tls_key else plain

abbrev pub change : (Program → Program) → Exec Program (Unit {0})
change f p = (ok tt, f p)

-- steps 0 to 2
abbrev pub opened : Outside → Config → Program → Program
opened out cfg p = record p {
  cancel_ctx = true;
  disk = cleanup_old_binary out.executable out.remove_fails p.disk;
  pool = some (open_databases out.odbc cfg);
}

-- what follows net.Listen
unfoldable pub start_serving : Outside → Config → Bytes → Exec Program (Unit {0})
start_serving out cfg addr = do
  change (λ p. record p {
    http_srv = some (http_server cfg.server);
    tasks = p.tasks ++ background out cfg;
  })
  lift (filter_serve_error (out.serve (serving cfg.server) addr))

-- run
unfoldable pub run : Outside → Config → Exec Program (Unit {0})
run out cfg = do
  change (opened out cfg)
  prov ← lift (wrapping tunnel_init (new_provider out.tagged cfg.tunnel))
  change (λ p. record p { tun_prov = some prov })
  addr ← lift (wrapping (listen_on cfg.server.listen) (listen out.bind prov cfg.server.listen))
  start_serving out cfg addr

-- what Stop does, in order
pub data Effect : Type 0 where
  cancel : Effect
  shutdown : Effect
  close_db : Db → Effect
  close_tunnel : Closing → Effect

abbrev pub close_pool : Option Pool → List Effect
close_pool none = []
close_pool (some pool) = map close_db (Pool.close pool).1

abbrev pub closed_pool : Option Pool → Option Pool
closed_pool none = none
closed_pool (some pool) = some (Pool.close pool).0

abbrev pub close_provider : Option Provider → List Effect
close_provider none = []
close_provider (some prov) = close_tunnel (Tunnel.close prov) ∷ []

-- Stop, which returns no error
unfoldable pub stop : Program → List Effect × Program
stop p = (
  (if p.cancel_ctx then cancel ∷ [] else [])
      ++ ((if is_some p.http_srv then shutdown ∷ [] else [])
          ++ (close_pool p.pool ++ close_provider p.tun_prov)),
  record p { pool = closed_pool p.pool },
)
