-- ===== src/Config/Defaults.antt =====
-- `applyDefaults` of internal/config/config.go: a setting that is missing gets its default.
pub mod Stable
use mdbapi.Base.{
  ◌≡◌, ◌≢◌, refl, Bool, true, false, List, [], ◌∷◌, ◌==◌, if◌then◌else◌, arith, zero, suc, ap,
}
use mdbapi.Base.Int.{ℤ, pos, negsuc}
use mdbapi.Strings.{Bytes, codes}
use mdbapi.Mdb.Types.{Float, is_zero_int}
use mdbapi.Config.{Config, ServiceConfig, ServerConfig, TunnelConfig, UpdaterConfig, ApiConfig}

-- if s == "" { s = default }
unfoldable pub or_text : Bytes → Bytes → Bytes
or_text [] default = default
or_text (c ∷ s) default = c ∷ s

-- if n == 0 { n = default }
unfoldable pub or_int : ℤ → ℤ → ℤ
or_int n default = if is_zero_int n then default else n

-- f == 0, of both signs
abbrev pub is_zero_float : Float → Bool
is_zero_float Float.nan = false
is_zero_float (Float.infinite sign) = false
is_zero_float (Float.finite sign mantissa exponent) = mantissa == 0

unfoldable pub or_float : Float → Float → Float
or_float f default = if is_zero_float f then default else f

abbrev pub service_defaults : ServiceConfig → ServiceConfig
service_defaults c = record c {
  name = or_text c.name (codes "MDBRestService");
  display_name = or_text c.display_name (codes "MDB REST API Service");
  description =
      or_text c.description (codes "Exposes Access MDB/ACCDB files via a read-only REST API");
  log_file = or_text c.log_file (codes "C:\\ProgramData\\MDBService\\mdbapi.log");
  log_max_size = or_int c.log_max_size (pos 5);
  log_max_files = or_int c.log_max_files (pos 5);
  log_max_age = or_int c.log_max_age (pos 30);
}

abbrev pub server_defaults : ServerConfig → ServerConfig
server_defaults c = record c {
  listen = or_text c.listen (codes "127.0.0.1:8080");
  read_timeout = or_int c.read_timeout (pos 30000000000);
  write_timeout = or_int c.write_timeout (pos 30000000000);
  idle_timeout = or_int c.idle_timeout (pos 120000000000);
  request_timeout = or_int c.request_timeout (pos 30000000000);
  max_body_size = or_int c.max_body_size (pos 1048576);
  max_header_bytes = or_int c.max_header_bytes (pos 8192);
  rate_limit = or_float c.rate_limit (Float.finite false 10 (pos 0));
  rate_burst = or_int c.rate_burst (pos 20);
}

abbrev pub updater_defaults : UpdaterConfig → UpdaterConfig
updater_defaults c = record c {
  check_interval = or_int c.check_interval (pos 3600000000000);
  channel = or_text c.channel (codes "release");
  variant = or_text c.variant (codes "standard");
}

unfoldable pub apply_defaults : Config → Config
apply_defaults c = record c {
  service = service_defaults c.service;
  server = server_defaults c.server;
  tunnel = record c.tunnel { provider = or_text c.tunnel.provider (codes "none") };
  updater = updater_defaults c.updater;
  api = record { max_rows = or_int c.api.max_rows (pos 1000) };
}
