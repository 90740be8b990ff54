-- ===== src/Integration/Served.antt =====
-- `doRequest` of cmd/integration/main.go against the handler that `main` serves: the checks run on
-- the model of internal/api. HTTP and package encoding/json are parameters.
pub mod Refusing
mod Tests
use mdbapi.Base.{ℕ, false, Option, none, some, List, [], ◌∷◌, ◌++◌, if◌then◌else◌, is_nil}
use mdbapi.Base.Int.{pos}
use mdbapi.Strings.{Bytes, codes}
use mdbapi.Mdb.Errors.{Result, ok, err}
use mdbapi.Mdb.Store.{PoolStore}
use mdbapi.Config.Expand.{after}
use mdbapi.Api.{Body, Response}
use mdbapi.Api
use mdbapi.Api.Access.{Addresses}
use mdbapi.Api.Rate.{Buckets}
use mdbapi.Api.Handlers.{Server}
use mdbapi.Api.Chain.{HandlerConfig, handler}
use mdbapi.Integration.Client.{ApiError, Envelope, Request, Reply, Decoder, Client}

abbrev pub test_api_key : Bytes
test_api_key = codes "0123456789abcdef0123456789abcdef0123456789abcdef0123456789abcdef"

-- NewServer and the HandlerConfig of main; a rate of 0 is none
unfoldable pub server_of : Server → Server
server_of outside = record outside {
  max_rows = pos 1000;
  version = codes "integration";
  commit = codes "test";
}

unfoldable pub handler_config : (Bytes → Bytes) → HandlerConfig
handler_config sha256 = record {
  keys = test_api_key ∷ [];
  max_body_bytes = pos 1048576;
  request_timeout = pos 0;
  allowed_ips = [];
  rate_on = false;
  sha256 = sha256;
}

-- what lies between the two programs
pub record Wire : Type 0 where
  -- json.Marshal of a body with its sql
  pub marshal_sql : Bytes → Bytes
  -- what a handler's body is on the wire, and json.Unmarshal into an envelope
  pub written : Body → Bytes
  pub unmarshal : Bytes → Result Envelope
  pub local_addr : Bytes
  pub arrival : ℕ

abbrev pub posted : Wire → Option Bytes → Bytes
posted wire none = []
posted wire (some sql) = wire.marshal_sql sql

-- the request as it arrives
unfoldable pub sent_request : Wire → Request → Api.Request
sent_request wire req = record {
  method = req.method;
  segments = req.segments;
  raw_query = [];
  query = [];
  remote_addr = wire.local_addr;
  authorization = if req.auth then codes "Bearer " ++ test_api_key else [];
  api_key = [];
  body = ok (posted wire req.sql);
  arrival = wire.arrival;
  deadline = none;
}

-- an answer that is empty is an empty envelope
abbrev pub enveloped : Wire → Bytes → Result Envelope
enveloped wire raw =
    if is_nil raw then ok (record { body = []; error = none }) else wire.unmarshal raw

abbrev pub replied : Wire → Response → Result Reply
replied wire resp =
    after (enveloped wire (wire.written resp.body))
      (λ env. ok (record { envelope = env; status = resp.status }))

-- doRequest, where `at` is the store that the requests so far have led to
unfoldable pub served :
    {Ip B : Type 0}
    → Addresses Ip
    → Buckets B
    → Server
    → (Bytes → Bytes)
    → Wire
    → Decoder
    → (List Request → PoolStore)
    → Client
served net buckets outside sha256 wire decoder at = record {
  answer = λ sent req.
      replied wire
        (handler net buckets (server_of outside) (handler_config sha256) (sent_request wire req)
          ((at sent, []), [])).0;
  decoder = decoder;
}
