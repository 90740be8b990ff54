-- ===== src/Service.antt =====
-- `run` of internal/winservice/service.go: how the configuration, the pool, the store and the HTTP
-- handler are put together. The listener, the goroutines and the service manager are left out.
pub mod Startup
pub mod Lifecycle
pub mod Manager
pub mod Access
mod Tests
use mdbapi.Base.{Bool, true, false, not, ◌&&◌, List, map, ◌==◌}
use mdbapi.Strings.{Bytes}
use mdbapi.Mdb.Types.{Float}
use mdbapi.Mdb.Driver.{Odbc}
use mdbapi.Mdb.Pool.{Pool, new_pool}
use mdbapi.Mdb.Store.{PoolStore, new_pool_store}
use mdbapi.Config.{Config}
use mdbapi.Config.Expand.{db_config}
use mdbapi.Api.Chain.{HandlerConfig}
use mdbapi.Api.Handlers.{Server}

-- step 1
unfoldable pub open_databases : Odbc → Config → Pool
open_databases odbc cfg = new_pool odbc (map db_config cfg.databases)

-- not (rps <= 0), which holds of NaN
abbrev pub is_limited : Float → Bool
is_limited Float.nan = true
is_limited (Float.infinite negative) = not negative
is_limited (Float.finite negative mantissa exponent) = not negative && not (mantissa == 0)

-- step 2: the store, the server and the settings of the handler
unfoldable pub store_of : Odbc → Config → PoolStore
store_of odbc cfg = new_pool_store (open_databases odbc cfg)

-- NewServer with the configured row cap, from a server with the outside functions
unfoldable pub server_of : Server → Config → Server
server_of outside cfg = record outside { max_rows = cfg.api.max_rows }

unfoldable pub handler_config : (Bytes → Bytes) → Config → HandlerConfig
handler_config sha256 cfg = record {
  keys = cfg.auth.keys;
  max_body_bytes = cfg.server.max_body_size;
  request_timeout = cfg.server.request_timeout;
  allowed_ips = cfg.auth.allowed_ips;
  rate_on = is_limited cfg.server.rate_limit;
  sha256 = sha256;
}
