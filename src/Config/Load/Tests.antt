-- ===== src/Config/Load/Tests.antt =====
-- Runs of internal/config on a configuration with one explicit database and one pattern, and
-- instances of the theorems.
use mdbapi.Base.{◌≡◌, refl, ◌↔◌, true, false, none, some, [], ◌∷◌}
use mdbapi.Base.Int.{pos}
use mdbapi.Base.Assoc.{lookup, insert}
use mdbapi.Strings.{Bytes, codes, bytes_eq, running_strings}
use mdbapi.Mdb.Errors.{ok, external}
use mdbapi.Mdb.Types.{Float}
use mdbapi.Config.{Config, DatabaseConfig}
use mdbapi.Config.Defaults.{or_text, or_int, or_float, apply_defaults}
use mdbapi.Config.Check.{
  Net, check_key, check_keys, check_database, check_databases, check_address, check_addresses,
  check_provider, validate,
}
use mdbapi.Config.Check.Valid.{IsValid, validate-IsValid}
use mdbapi.Config.Env.{prefix_of, reference, expand_from, expand_env}
use mdbapi.Config.Glob.{
  FilePath, dotted, ext, safe_parts, glob_base, rune_rest, safe_runes, alias_from_path, walked,
  match_glob,
}
use mdbapi.Config.Expand.{admit, add_matches, expand_entry, expand_entries, expand_globs}
use mdbapi.Config.Load.{System, glob_entries_of, finish, load}
use mdbapi.Config.Load.Laws.{IsUsable, load-IsUsable}

-- everything that a run of `load` computes with
unfoldable pub running_config : Unit {0}
unfolding running_strings lookup insert or_text or_int or_float apply_defaults check_key check_keys
    check_database check_databases check_address check_addresses check_provider validate prefix_of
    reference expand_from expand_env dotted ext safe_parts glob_base rune_rest safe_runes
    alias_from_path walked match_glob admit add_matches expand_entry expand_entries expand_globs
    glob_entries_of finish load
running_config = tt

-- two files under C:\d, of which one is above the other
abbrev pub paths : FilePath
paths = record {
  clean = λ p. p;
  volume_name = λ p. codes "C:";
  base = λ p. codes "*.mdb";
  dir = λ p. codes "C:\\d\\x";
  abs = λ p. p;
  rel = λ base p. ok (codes "x\\Or ders.mdb");
  matches = λ pattern p. some true;
  glob = λ p. ok (codes "C:\\d\\Orders.mdb" ∷ []);
  walk = λ base.
      record {
        path = codes "C:\\d\\x\\Or ders.mdb";
        name = codes "Or ders.mdb";
        is_dir = false;
        failed = false;
      }
      ∷ [];
  bad_pattern = external (codes "syntax error in pattern");
}

abbrev pub explicit : DatabaseConfig
explicit = record { alias = codes "X_or_ders"; path = codes "C:\\a.mdb"; glob = []; driver = [] }

abbrev pub pattern : DatabaseConfig
pattern = record { alias = []; path = []; glob = codes "C:\\d\\**\\*.mdb"; driver = codes "D" }

abbrev pub other : DatabaseConfig
other = record explicit { alias = codes "a" }

abbrev pub long_key : Bytes
long_key = codes "0123456789abcdef0123456789abcdef"

abbrev pub raw : Config
raw = record {
  service = record {
    name = [];
    display_name = [];
    description = [];
    log_file = [];
    log_max_size = pos 0;
    log_max_files = pos 7;
    log_max_age = pos 0;
    log_compress = false;
  };
  server = record {
    listen = [];
    read_timeout = pos 0;
    write_timeout = pos 0;
    idle_timeout = pos 0;
    request_timeout = pos 0;
    max_body_size = pos 0;
    max_header_bytes = pos 0;
    rate_limit = Float.finite false 0 (pos 0);
    rate_burst = pos 0;
    tls_cert = [];
    tls_key = [];
  };
  auth = record { keys = long_key ∷ []; allowed_ips = codes "10.0.0.0/8" ∷ [] };
  databases = other ∷ pattern ∷ [];
  tunnel = record {
    provider = [];
    tsnet = record { hostname = []; auth_key = []; state_dir = []; funnel = false };
  };
  updater = record {
    enabled = false;
    github_repo = [];
    check_interval = pos 0;
    github_token = [];
    channel = [];
    variant = [];
  };
  api = record { max_rows = pos 0 };
  glob_entries = [];
}

abbrev pub net : Net
net = record { parses_cidr = λ e. true; parses_ip = λ e. true }

abbrev pub system : System
system = record {
  read_file = λ path. ok (codes "auth: {}");
  env = λ name. none;
  parse = λ text. ok raw;
  net = net;
  paths = paths;
}

-- the pattern matches a file whose alias is taken
clash : expand_globs paths (explicit ∷ pattern ∷ []) ≡ ok (explicit ∷ [])
unfolding running_config
clash = refl

abbrev pub found : DatabaseConfig
found = record {
  alias = codes "x_or_ders";
  path = codes "C:\\d\\x\\Or ders.mdb";
  glob = [];
  driver = [];
}

abbrev pub result : Config
result = record (apply_defaults raw) { databases = other ∷ found ∷ []; glob_entries = pattern ∷ [] }

load-IsUsable_example : IsUsable result
unfolding running_config
load-IsUsable_example = load-IsUsable system (codes "config.yaml") result refl

abbrev unset_raw : Config
unset_raw = record raw { auth = record { keys = codes "__UNSET_ENV_KEY__" ∷ []; allowed_ips = [] } }

validate-IsValid_example : (validate net raw ≡ []) ↔ IsValid net raw
validate-IsValid_example = validate-IsValid net raw
