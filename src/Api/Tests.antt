-- ===== src/Api/Tests.antt =====
-- Runs of internal/api on a store with one database, and instances of the theorems.
use mdbapi.Base.{ℕ, zero, suc, ◌≡◌, refl, true, false, none, some, [], ◌∷◌, ltb}
use mdbapi.Base.Int.{pos}
use mdbapi.Base.Assoc.{lookup, insert}
use mdbapi.Strings.{Bytes, codes, str_eq, bytes_eq, running_strings}
use mdbapi.Strings.Scan.{running_scan}
use mdbapi.Mdb.Errors.{ok, err, external}
use mdbapi.Mdb.Sql.{running_sql}
use mdbapi.Mdb.Schema.{Db, ColumnCache, find_column}
use mdbapi.Mdb.Query.{is_reserved, get, add_filter, collect_filters, parse_query_opts}
use mdbapi.Mdb.Pool
use mdbapi.Mdb.Store.{PoolStore, list_tables}
use mdbapi.Api.{Request, Body, bad_request, internal_error}
use mdbapi.Api.Access.{
  Addresses, extract_key, is_valid_key, with_auth, is_allowed, extract_ip, with_ip_allow,
}
use mdbapi.Api.Rate.{Buckets, admit, clean_up, with_rate_limit}
use mdbapi.Api.Handlers.{
  SqlRequest, Server, is_not_found, handle_list_tables, handle_query_table, handle_health,
}
use mdbapi.Api.Chain.{HandlerConfig, inner_routes, inner, outer, chain, handler}
use mdbapi.Api.Wrapping.{
  with_recovery, with_security_headers, with_logging, with_request_timeout, with_max_body,
}
use mdbapi.Api.Guarding.{IsRefusal, handler-IsRefusal}
use mdbapi.Api.Serving.{IsServed, chain-IsServed, oversized_refused}
use mdbapi.Api.Codes.{handle_query_table_unknown}

-- everything that a run of a handler computes with
unfoldable running_api : Unit {0}
unfolding running_strings running_scan running_sql lookup insert find_column is_reserved get
    add_filter collect_filters parse_query_opts list_tables Pool.conn_str_for Pool.databases
    extract_key is_valid_key with_auth is_allowed extract_ip with_ip_allow admit clean_up
    with_rate_limit is_not_found handle_list_tables handle_health inner_routes inner outer
    with_recovery with_security_headers with_logging with_request_timeout with_max_body chain
    handler
running_api = tt

abbrev blank_db : Db
blank_db = record { answer = λ sent stmt. err (external (codes "no such table")) }

abbrev columns : ColumnCache
columns = record {
  db = blank_db;
  cache =
      (codes "t", record { name = codes "id"; type_name = codes "INTEGER"; nullable = false } ∷ [])
      ∷ [];
}

abbrev store : PoolStore
store = record {
  pool = record {
    dbs = (codes "shop", blank_db) ∷ [];
    paths = (codes "shop", codes "s.mdb") ∷ [];
    conn_strs = (codes "shop", codes "DBQ=s.mdb") ∷ [];
  };
  caches = (codes "shop", columns) ∷ [];
  sent = [];
}

abbrev drop_table : SqlRequest
drop_table = record { sql = codes "DROP TABLE t"; params = []; trim_whitespace = none }

abbrev server : Server
server = record {
  max_rows = pos 1000;
  version = codes "1";
  commit = codes "c";
  catalog = λ conn. ok (codes "t" ∷ []);
  ping = λ db. none;
  stat = λ path. none;
  unmarshal = λ body. some drop_table;
}

abbrev request : Request
request = record {
  method = codes "GET";
  segments = codes "v1" ∷ codes "shop" ∷ codes "tables" ∷ [];
  raw_query = [];
  query = (codes "colour", codes "red" ∷ []) ∷ [];
  remote_addr = codes "10.0.0.7:5000";
  authorization = codes "Bearer secret";
  api_key = [];
  body = ok (codes "{}");
  arrival = 5;
  deadline = none;
}

-- one bucket is a number of requests left
abbrev three_each : Buckets ℕ
three_each = record {
  new_limiter = 3;
  allow = λ now n. (ltb 0 n, elim n [ zero ↦ zero | suc m ↦ m ]);
}

abbrev net : Addresses Bytes
net = record {
  split_host = λ addr. none;
  parse_ip = λ text. some text;
  parse_cidr = λ text. none;
  equal_ip = str_eq;
}

abbrev config : HandlerConfig
config = record {
  keys = codes "secret" ∷ [];
  allowed_ips = [];
  max_body_bytes = pos 1048576;
  request_timeout = pos 30000000000;
  rate_on = true;
  sha256 = λ key. key;
}

tables_listed :
    (handler net three_each server config request ((store, []), [])).0.body
    ≡ Body.tables (codes "shop") (codes "t" ∷ [])
unfolding running_api
tables_listed = refl

abbrev stranger : Request
stranger = record request { authorization = codes "Bearer guess" }

handler-IsRefusal_example :
    IsRefusal (some (handler net three_each server config stranger ((store, []), [])).0)
    × ((handler net three_each server config stranger ((store, []), [])).1.0.0 ≡ store)
unfolding running_api
handler-IsRefusal_example =
    handler-IsRefusal net three_each server config stranger store [] [] refl refl

handle_query_table_unknown_example :
    ((handle_query_table server (codes "shop") (codes "t") request store).0 ≡ some internal_error)
    × ((handle_query_table server (codes "shop") (codes "t") request store).1.sent ≡ [])
unfolding running_api
handle_query_table_unknown_example =
    handle_query_table_unknown server (codes "shop") (codes "t") request blank_db columns
      (record { name = codes "id"; type_name = codes "INTEGER"; nullable = false } ∷ [])
      (codes "colour") store refl refl refl refl

-- a route that panics gets 500 and no line in the log
panic_unlogged :
    (chain net three_each config (λ r s. (none, s)) request ((store, []), [])).0.status ≡ 500
unfolding running_api
panic_unlogged = refl

chain-IsServed_example :
    IsServed request []
      (chain net three_each config (outer server config) request ((store, []), []))
chain-IsServed_example =
    chain-IsServed net three_each config (outer server config) request (store, []) []

abbrev posted : Request
posted = record request {
  method = codes "POST";
  segments = codes "v1" ∷ codes "shop" ∷ codes "query" ∷ [];
}

oversized_refused_example :
    with_max_body (pos 1) (outer server config) posted store
    ≡ (some (bad_request (codes "failed to read request body")), store)
unfolding running_api
oversized_refused_example =
    oversized_refused server config (pos 1) posted (codes "shop") (codes "{}") store refl refl refl
      refl refl refl
