-- ===== src/Service/Startup.antt =====
-- What a service that was started from a loaded configuration does.
use mdbapi.Base.{
  ◌≡◌, refl, ap, ◌∙◌, false, some, List, [], ◌∷◌, map, All, any, leb, length, arith, Bool-cases,
  inl, inr,
}
use mdbapi.Strings.{Bytes, str_eq, str_eq_iff}
use mdbapi.Mdb.Driver.{Odbc, open_db}
use mdbapi.Mdb.Pool
use mdbapi.Mdb.Store.{PoolStore}
use mdbapi.Mdb.Pool.{DbConfig}
use mdbapi.Mdb.Pool.Closing.{opening, new_pool_each}
use mdbapi.Config.{Config}
use mdbapi.Config.Check.Valid.{IsKey}
use mdbapi.Config.Expand.{db_config}
use mdbapi.Config.Load.{System, loaded, load}
use mdbapi.Config.Load.Laws.{load-IsUsable}
use mdbapi.Api.{Request}
use mdbapi.Api.Access.{Addresses, extract_key}
use mdbapi.Api.Rate.{Buckets, Limiters}
use mdbapi.Api.Handlers.{Server}
use mdbapi.Api.Wrapping.{LogLine}
use mdbapi.Api.Chain.{handler}
use mdbapi.Api.Guarding.{is_open, IsRefusal, handler-IsRefusal, is_valid_key-any}
use mdbapi.Service.{open_databases, server_of, handler_config}

-- Every database of a loaded configuration that opens is found under its alias when the service
-- starts, also those that come from a pattern, and every other one is unknown.
pub open_databases_each :
    (sys : System) (odbc : Odbc) (path : Bytes) (cfg : Config)
    → load sys path ≡ loaded cfg
    → All
        (λ (d : DbConfig).
          Pool.get (open_databases odbc cfg) d.alias
          ≡ opening d.alias (open_db odbc d.path d.driver))
        (map db_config cfg.databases)
unfolding open_databases
open_databases_each sys odbc path cfg h =
    new_pool_each odbc (map db_config cfg.databases) (load-IsUsable sys path cfg h).distinct

short_not_member :
    (keys : List Bytes) (supplied : Bytes)
    → All IsKey keys
    → leb 32 (length supplied) ≡ false
    → any (str_eq supplied) keys ≡ false
short_not_member [] supplied h short = refl
short_not_member (k ∷ keys) supplied ((set, long), h) short =
    elim (Bool-cases (str_eq supplied k)) [
      | inl eq ↦
          let same = ap (λ (s : Bytes). leb 32 (length s)) ((str_eq_iff supplied k).0 eq) in
          absurd (cc (same, long, short))
      | inr ne ↦ ground (arith, ne, short_not_member keys supplied h short)
    ]

-- A service that was started from a loaded configuration answers no request whose key has less
-- than 32 bytes, none included, outside of the health and OpenAPI routes: it gets 401, 403 or 429,
-- and the store is unchanged, whatever the store, the limiters and the log have become by then. The
-- hash of the supplied key must be that of no other key.
pub short_key-IsRefusal :
    {Ip B : Type 0} (net : Addresses Ip) (buckets : Buckets B) (outside : Server)
    (sha256 : Bytes → Bytes) (sys : System) (path : Bytes) (cfg : Config) (r : Request)
    (s : PoolStore) (limiters : Limiters B) (log : List LogLine)
    → load sys path ≡ loaded cfg
    → All (λ k. sha256 (extract_key r) ≡ sha256 k → extract_key r ≡ k) cfg.auth.keys
    → leb 32 (length (extract_key r)) ≡ false
    → is_open r ≡ false
    → IsRefusal (
        some
          (handler net buckets
            (server_of outside cfg)
            (handler_config sha256 cfg)
            r
            ((s, limiters), log)).0)
      × ((handler net buckets
            (server_of outside cfg)
            (handler_config sha256 cfg)
            r
            ((s, limiters), log)).1.0.0
          ≡ s)
unfolding handler_config
short_key-IsRefusal net buckets outside sha256 sys path cfg r s limiters log h distinct short
      closed =
    handler-IsRefusal net buckets (server_of outside cfg) (handler_config sha256 cfg) r s limiters
      log
      (is_valid_key-any sha256 cfg.auth.keys (extract_key r) distinct
        ∙ short_not_member cfg.auth.keys (extract_key r) (load-IsUsable sys path cfg h).keys short)
      closed
