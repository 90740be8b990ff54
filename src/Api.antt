-- ===== src/Api.antt =====
-- internal/api: requests, responses and the pieces that the chain of handlers is built from.
pub mod Access
pub mod Rate
pub mod Wrapping
pub mod Handlers
pub mod Chain
pub mod Guarding
pub mod Codes
pub mod Serving
mod Tests
use mdbapi.Base.{ℕ, Bool, Option, List, [], ◌∷◌}
use mdbapi.Strings.{Bytes, codes}
use mdbapi.Mdb.Errors.{Result}
use mdbapi.Mdb.Query.{Values, Row}
use mdbapi.Mdb.Pool.{DbInfo}

-- *http.Request; the path by its segments, the last one empty behind a trailing slash, the header
-- by the two lookups that the code makes, the time of arrival in nanoseconds, and the deadline of
-- the context
pub record Request : Type 0 where
  pub method : Bytes
  pub segments : List Bytes
  pub raw_query : Bytes
  pub query : Values
  pub remote_addr : Bytes
  pub authorization : Bytes
  pub api_key : Bytes
  pub body : Result Bytes
  pub arrival : ℕ
  pub deadline : Option ℕ

-- the JSON values that the handlers write
pub data Body : Type 0 where
  databases : List DbInfo → Body
  tables : Bytes → List Bytes → Body
  table_rows : Bytes → Bytes → ℕ → List Row → Body
  sql_rows : Bytes → ℕ → List Row → Body
  version : Bytes → Bytes → Body
  health : Bytes → Body
  openapi : Body
  -- the answers of http.ServeMux itself
  plain : Bytes → Body
  -- code and message
  error : Bytes → Bytes → Body

pub record Response : Type 0 where
  pub status : ℕ
  pub headers : List (Bytes × Bytes)
  pub body : Body

-- a handler over a state; `none` is a panic
abbrev pub Handler {ℓ} : Type ℓ → Type ℓ
Handler S = Request → S → Option Response × S

abbrev pub json_type : Bytes × Bytes
json_type = (codes "Content-Type", codes "application/json")

abbrev pub write_json : ℕ → Body → Response
write_json status body = record { status = status; headers = json_type ∷ []; body = body }

abbrev pub write_error : ℕ → Bytes → Bytes → Response
write_error status code message = write_json status (Body.error code message)

abbrev pub not_found : Response
not_found = write_error 404 (codes "not_found") (codes "resource not found")

abbrev pub internal_error : Response
internal_error = write_error 500 (codes "internal_error") (codes "internal server error")

abbrev pub bad_request : Bytes → Response
bad_request msg = write_error 400 (codes "bad_request") msg

abbrev pub forbidden : Bytes → Response
forbidden msg = write_error 403 (codes "forbidden") msg
