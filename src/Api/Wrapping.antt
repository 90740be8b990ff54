-- ===== src/Api/Wrapping.antt =====
-- The middlewares of internal/api/middleware.go that refuse nobody: the body limit, the deadline, the
-- log, the security headers and the recovery from a panic.
use mdbapi.Base.{ℕ, ◌+◌, Option, none, some, List, [], ◌∷◌, ◌++◌, if◌then◌else◌, ltb, leb, length}
use mdbapi.Base.Int.{ℤ, pos, pos_part, ltb_ℤ}
use mdbapi.Strings.{Bytes, codes}
use mdbapi.Strings.Decimal.{itoa}
use mdbapi.Mdb.Errors.{Result, ok, err, external}
use mdbapi.Api.{Request, Response, Handler, internal_error}

-- what io.ReadAll gets from http.MaxBytesReader; a negative limit is 0
abbrev pub limited_body : ℤ → Result Bytes → Result Bytes
limited_body limit (err e) = err e
limited_body limit (ok body) =
    if leb (length body) (pos_part limit)
    then ok body
    else err (external (codes "http: request body too large"))

-- maxBodyMiddleware
unfoldable pub with_max_body {ℓ} : {S : Type ℓ} → ℤ → Handler S → Handler S
with_max_body limit next r s = next (record r { body = limited_body limit r.body }) s

-- context.WithTimeout keeps a deadline that comes before
abbrev pub sooner : ℕ → Option ℕ → Option ℕ
sooner t none = some t
sooner t (some u) = some (if ltb t u then t else u)

-- requestTimeoutMiddleware
unfoldable pub with_request_timeout {ℓ} : {S : Type ℓ} → ℤ → Handler S → Handler S
with_request_timeout timeout next r s =
    let direct = next r s in
    let by_deadline =
      next (record r { deadline = sooner (r.arrival + pos_part timeout) r.deadline }) s in
    if ltb_ℤ (pos 0) timeout then by_deadline else direct

-- the "request" line of the log, without the duration
pub record LogLine : Type 0 where
  pub req_id : Bytes
  pub method : Bytes
  pub path : List Bytes
  pub status : ℕ
  pub remote_addr : Bytes

abbrev pub line : Request → ℕ → LogLine
line r status = record {
  req_id = itoa r.arrival;
  method = r.method;
  path = r.segments;
  status = status;
  remote_addr = r.remote_addr;
}

abbrev pub request_id : Request → Bytes × Bytes
request_id r = (codes "X-Request-Id", itoa r.arrival)

abbrev pub with_header : Bytes × Bytes → Response → Response
with_header h resp = record resp { headers = h ∷ resp.headers }

-- behind the next handler: a panic passes the log by
abbrev pub logged {ℓ} :
    {S : Type ℓ}
    → Request
    → List LogLine
    → Option Response × S
    → Option Response × (S × List LogLine)
logged r log (none, s) = (none, (s, log))
logged r log (some resp, s) =
    (some (with_header (request_id r) resp), (s, log ++ line r resp.status ∷ []))

-- loggingMiddleware, on a state that holds the log beside another one
unfoldable pub with_logging {ℓ} : {S : Type ℓ} → Handler S → Handler (S × List LogLine)
with_logging next r (s, log) = logged r log (next r s)

abbrev pub security_headers : List (Bytes × Bytes)
security_headers =
    (codes "X-Content-Type-Options", codes "nosniff")
    ∷ (codes "X-Frame-Options", codes "DENY")
    ∷ (codes "Cache-Control", codes "no-store")
    ∷ (codes "Content-Security-Policy", codes "default-src 'none'")
    ∷ []

abbrev pub with_headers : List (Bytes × Bytes) → Response → Response
with_headers hs resp = record resp { headers = hs ++ resp.headers }

abbrev pub add_headers : Option Response → Option Response
add_headers none = none
add_headers (some resp) = some (with_headers security_headers resp)

-- securityHeadersMiddleware
unfoldable pub with_security_headers {ℓ} : {S : Type ℓ} → Handler S → Handler S
with_security_headers next r s = let (resp, s') = next r s in (add_headers resp, s')

-- recoveryMiddleware around the two above; the headers that they set before a panic stay
abbrev pub or_internal_error : Request → Option Response → Response
or_internal_error r none = with_headers security_headers (with_header (request_id r) internal_error)
or_internal_error r (some resp) = resp

unfoldable pub with_recovery {ℓ} : {S : Type ℓ} → Handler S → Request → S → Response × S
with_recovery next r s = let (resp, s') = next r s in (or_internal_error r resp, s')
