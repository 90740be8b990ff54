-- ===== src/Service/Tests.antt =====
-- Instances of the theorems on a started service, for the configuration of Config.Load.Tests.
use mdbapi.Base.{ℕ, zero, suc, ◌≡◌, refl, true, none, some, [], ◌∷◌, map, All, ltb}
use mdbapi.Base.Int.{pos}
use mdbapi.Strings.{Bytes, codes, str_eq}
use mdbapi.Mdb.Errors.{ok, err, external}
use mdbapi.Mdb.Schema.{Db}
use mdbapi.Mdb.Driver.{Odbc, open_db}
use mdbapi.Mdb.Pool
use mdbapi.Mdb.Pool.{DbConfig}
use mdbapi.Mdb.Pool.Closing.{opening}
use mdbapi.Config.Expand.{db_config}
use mdbapi.Config.Load.Tests.{system, result, running_config}
use mdbapi.Api.{Request}
use mdbapi.Api.Access.{Addresses, extract_key}
use mdbapi.Api.Rate.{Buckets}
use mdbapi.Api.Handlers.{Server}
use mdbapi.Api.Chain.{handler}
use mdbapi.Api.Guarding.{IsRefusal}
use mdbapi.Service.{open_databases, store_of, server_of, handler_config}
use mdbapi.Service.Startup.{open_databases_each, short_key-IsRefusal}

abbrev blank_db : Db
blank_db = record { answer = λ sent stmt. err (external (codes "no such table")) }

abbrev opens : Odbc
opens = record { open_conn = λ conn. ok blank_db; ping = λ db. none; registry = none }

open_databases_each_example :
    All
      (λ (d : DbConfig).
        Pool.get (open_databases opens result) d.alias
        ≡ opening d.alias (open_db opens d.path d.driver))
      (map db_config result.databases)
unfolding running_config
open_databases_each_example = open_databases_each system opens (codes "config.yaml") result refl

abbrev server : Server
server = record {
  max_rows = pos 1;
  version = codes "1";
  commit = codes "c";
  catalog = λ conn. ok (codes "t" ∷ []);
  ping = λ db. none;
  stat = λ path. none;
  unmarshal = λ body. none;
}

abbrev request : Request
request = record {
  method = codes "GET";
  segments = codes "v1" ∷ codes "a" ∷ codes "tables" ∷ [];
  raw_query = [];
  query = [];
  remote_addr = codes "10.0.0.7:5000";
  authorization = [];
  api_key = codes "short";
  body = ok [];
  arrival = 5;
  deadline = none;
}

abbrev three_each : Buckets ℕ
three_each = record {
  new_limiter = 3;
  allow = λ now n. (ltb 0 n, elim n [ zero ↦ zero | suc m ↦ m ]);
}

abbrev net : Addresses Bytes
net = record {
  split_host = λ addr. some (codes "10.0.0.7");
  parse_ip = λ text. some text;
  parse_cidr = λ text. some (λ ip. true);
  equal_ip = str_eq;
}

short_key-IsRefusal_example :
    IsRefusal (
      some
        (handler net three_each
          (server_of server result)
          (handler_config (λ key. key) result)
          request
          ((store_of opens result, []), [])).0)
    × ((handler net three_each
          (server_of server result)
          (handler_config (λ key. key) result)
          request
          ((store_of opens result, []), [])).1.0.0
        ≡ store_of opens result)
unfolding running_config extract_key
short_key-IsRefusal_example =
    short_key-IsRefusal net three_each server (λ key. key) system (codes "config.yaml") result
      request (store_of opens result) [] [] refl ((λ e. e), tt) refl refl
