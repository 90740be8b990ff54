-- ===== src/Config/Load.antt =====
-- `Load` of internal/config/config.go. The YAML parser and the file system are parameters.
pub mod Laws
pub mod Tests
use mdbapi.Base.{Bool, not, Option, List, [], ◌∷◌, ◌++◌, if◌then◌else◌, is_nil}
use mdbapi.Strings.{Bytes}
use mdbapi.Mdb.Errors.{Error, Result, ok, err, wrapping, read_config, parse_config, expand}
use mdbapi.Config.{Config, DatabaseConfig}
use mdbapi.Config.Defaults.{apply_defaults}
use mdbapi.Config.Check.{Net, Problem, validate}
use mdbapi.Config.Env.{expand_env}
use mdbapi.Config.Glob.{FilePath}
use mdbapi.Config.Expand.{after, expand_globs}

-- os.ReadFile, os.LookupEnv, yaml.Unmarshal into an empty Config, net and path/filepath
pub record System : Type 0 where
  pub read_file : Bytes → Result Bytes
  pub env : Bytes → Option Bytes
  pub parse : Bytes → Result Config
  pub net : Net
  pub paths : FilePath

-- what Load returns: a configuration, the problems that validate found, or another error
pub data Loaded : Type 0 where
  loaded : Config → Loaded
  invalid : List Problem → Loaded
  failed : Error → Loaded

-- the entries that the watcher gets
unfoldable pub glob_entries_of : List DatabaseConfig → List DatabaseConfig
glob_entries_of [] = []
glob_entries_of (d ∷ ds) =
    let rest = glob_entries_of ds in if not (is_nil d.glob) then d ∷ rest else rest

abbrev pub resolved : Config → Result (List DatabaseConfig) → Loaded
resolved cfg (err e) = failed (Error.wrap expand e)
resolved cfg (ok dbs) = loaded (record cfg {
  databases = dbs;
  glob_entries = cfg.glob_entries ++ glob_entries_of cfg.databases;
})

abbrev pub checked : System → Config → List Problem → Loaded
checked sys cfg [] = resolved cfg (expand_globs sys.paths cfg.databases)
checked sys cfg (p ∷ ps) = invalid (p ∷ ps)

-- Load, after the parse
unfoldable pub finish : System → Config → Loaded
finish sys raw = let cfg = apply_defaults raw in checked sys cfg (validate sys.net cfg)

abbrev pub parsed : System → Result Config → Loaded
parsed sys (err e) = failed e
parsed sys (ok raw) = finish sys raw

unfoldable pub load : System → Bytes → Loaded
load sys path = parsed sys (
    after (wrapping (read_config path) (sys.read_file path))
      (λ raw. wrapping (parse_config path) (sys.parse (expand_env sys.env raw))))
