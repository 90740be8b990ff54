-- ===== src/Config.antt =====
-- internal/config/config.go: the settings, as they come out of the YAML file.
pub mod Defaults
pub mod Check
pub mod Env
pub mod Glob
pub mod Expand
pub mod Load
use mdbapi.Base.{Bool, List}
use mdbapi.Base.Int.{ℤ}
use mdbapi.Strings.{Bytes}
use mdbapi.Mdb.Types.{Float}

pub record ServiceConfig : Type 0 where
  pub name : Bytes
  pub display_name : Bytes
  pub description : Bytes
  pub log_file : Bytes
  pub log_max_size : ℤ
  pub log_max_files : ℤ
  pub log_max_age : ℤ
  pub log_compress : Bool

-- the durations in nanoseconds
pub record ServerConfig : Type 0 where
  pub listen : Bytes
  pub read_timeout : ℤ
  pub write_timeout : ℤ
  pub idle_timeout : ℤ
  pub request_timeout : ℤ
  pub max_body_size : ℤ
  pub max_header_bytes : ℤ
  pub rate_limit : Float
  pub rate_burst : ℤ
  pub tls_cert : Bytes
  pub tls_key : Bytes

pub record AuthConfig : Type 0 where
  pub keys : List Bytes
  pub allowed_ips : List Bytes

pub record DatabaseConfig : Type 0 where
  pub alias : Bytes
  pub path : Bytes
  pub glob : Bytes
  pub driver : Bytes

pub record TsnetConfig : Type 0 where
  pub hostname : Bytes
  pub auth_key : Bytes
  pub state_dir : Bytes
  pub funnel : Bool

pub record TunnelConfig : Type 0 where
  pub provider : Bytes
  pub tsnet : TsnetConfig

pub record UpdaterConfig : Type 0 where
  pub enabled : Bool
  pub github_repo : Bytes
  pub check_interval : ℤ
  pub github_token : Bytes
  pub channel : Bytes
  pub variant : Bytes

pub record ApiConfig : Type 0 where
  pub max_rows : ℤ

pub record Config : Type 0 where
  pub service : ServiceConfig
  pub server : ServerConfig
  pub auth : AuthConfig
  pub databases : List DatabaseConfig
  pub tunnel : TunnelConfig
  pub updater : UpdaterConfig
  pub api : ApiConfig
  pub glob_entries : List DatabaseConfig
