-- ===== src/Integration/Served/Tests.antt =====
-- The check of a DELETE on one database, over a wire that writes a text behind its length.
use mdbapi.Base.{ℕ, ◌≡◌, refl, true, false, none, some, [], ◌∷◌, ◌++◌, length, take, drop}
use mdbapi.Base.Int.{pos}
use mdbapi.Base.Assoc.{lookup}
use mdbapi.Strings.{Bytes, codes, str_eq, bytes_eq}
use mdbapi.Mdb.Errors.{Result, ok, err, external}
use mdbapi.Mdb.Schema.{Db}
use mdbapi.Mdb.Store.{PoolStore}
use mdbapi.Api.{Body}
use mdbapi.Api.Access.{Addresses}
use mdbapi.Api.Rate.{Buckets}
use mdbapi.Api.Handlers.{Server}
use mdbapi.Integration.Quoting.{double_closing, quote_ident}
use mdbapi.Integration.Client.{Decoder, Envelope, pass, asked}
use mdbapi.Integration.Database.{new_runner, check_sql_delete_forbidden}
use mdbapi.Integration.Served.{Wire, served}
use mdbapi.Integration.Served.Refusing.{WireLaws, delete_request, delete_check_passes}

abbrev written : Body → Bytes
written (Body.error code message) = 1 ∷ length code ∷ (code ++ message)
written _ = 0 ∷ []

abbrev read : Bytes → Result Envelope
read (c ∷ n ∷ s) =
    ok (record { body = []; error = some (record { code = take n s; message = drop n s }) })
read _ = err (external (codes "no envelope"))

abbrev wire : Wire
wire = record {
  marshal_sql = λ sql. sql;
  written = written;
  unmarshal = read;
  local_addr = codes "127.0.0.1:5000";
  arrival = 7;
}

abbrev outside : Server
outside = record {
  max_rows = pos 0;
  version = [];
  commit = [];
  catalog = λ conn. ok [];
  ping = λ db. none;
  stat = λ path. none;
  unmarshal = λ body. some (record { sql = body; params = []; trim_whitespace = none });
}

-- the name of the table holds a closing bracket, a comment mark and a keyword
abbrev table : Bytes
table = codes "a]/*SELECT"

laws : WireLaws wire outside table
unfolding double_closing quote_ident
laws = record { answered = refl; written = refl; arrives = refl }

abbrev net : Addresses Bytes
net = record {
  split_host = λ addr. some (codes "127.0.0.1");
  parse_ip = λ text. some text;
  parse_cidr = λ text. none;
  equal_ip = λ a b. false;
}

abbrev unlimited : Buckets ℕ
unlimited = record { new_limiter = 0; allow = λ now n. (true, n) }

abbrev decoder : Decoder
decoder = record {
  status = λ data_bytes. ok data_bytes;
  databases = λ data_bytes. ok [];
  tables = λ data_bytes. ok [];
  rows = λ data_bytes. ok none;
}

abbrev shop : Db
shop = record { answer = λ sent stmt. err (external (codes "locked")) }

abbrev store : PoolStore
store = record {
  pool = record { dbs = (codes "shop", shop) ∷ []; paths = []; conn_strs = [] };
  caches = [];
  sent = [];
}

delete_check_passes_example :
    check_sql_delete_forbidden
      (served net unlimited outside (λ key. key) wire decoder (λ sent. store))
      (codes "shop")
      table
      new_runner
    ≡ pass (asked (delete_request (codes "shop") table) new_runner)
unfolding lookup double_closing quote_ident str_eq
delete_check_passes_example =
    delete_check_passes net unlimited outside (λ key. key) wire decoder (λ sent. store)
      (codes "shop") table new_runner shop laws refl refl refl
