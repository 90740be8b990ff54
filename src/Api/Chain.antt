-- ===== src/Api/Chain.antt =====
-- internal/api/router.go: the routes and the order of the middlewares. Requests have clean paths;
-- http.ServeMux redirects the others.
use mdbapi.Base.{◌++◌, Bool, false, ◌&&◌, ◌||◌, Option, some, List, [], ◌∷◌, if◌then◌else◌, is_nil}
use mdbapi.Base.Int.{ℤ}
use mdbapi.Strings.{Bytes, codes, str_eq}
use mdbapi.Mdb.Store.{PoolStore}
use mdbapi.Api.{Request, Response, Handler, Body, write_json}
use mdbapi.Api.Wrapping.{
  LogLine, with_recovery, with_security_headers, with_logging, with_request_timeout, with_max_body,
}
use mdbapi.Api.Access.{Addresses, with_auth, with_ip_allow, extract_ip}
use mdbapi.Api.Rate.{Buckets, Limiters, with_rate_limit}
use mdbapi.Api.Handlers.{
  Server, handle_list_databases, handle_list_tables, handle_query_table, handle_execute_sql,
  handle_version, handle_health,
}

-- a GET pattern also matches HEAD
abbrev pub is_get : Bytes → Bool
is_get m = str_eq m (codes "GET") || str_eq m (codes "HEAD")

abbrev pub is_post : Bytes → Bool
is_post m = str_eq m (codes "POST")

abbrev pub mux_not_found : Response
mux_not_found = record {
  status = 404;
  headers = (codes "Content-Type", codes "text/plain; charset=utf-8") ∷ [];
  body = Body.plain (codes "404 page not found\n");
}

abbrev pub mux_not_allowed : Bytes → Response
mux_not_allowed allow = record {
  status = 405;
  headers = (codes "Allow", allow) ∷ (codes "Content-Type", codes "text/plain; charset=utf-8") ∷ [];
  body = Body.plain (codes "Method Not Allowed\n");
}

-- the redirect to /v1/, which keeps the query of the URL
abbrev pub mux_redirect : Bytes → Response
mux_redirect raw_query = record {
  status = 301;
  headers =
      (codes "Content-Type", codes "text/html; charset=utf-8")
      ∷ (codes "Location", codes "/v1/" ++ (if is_nil raw_query then [] else b'?' ∷ raw_query))
      ∷ [];
  body = Body.plain [];
}

abbrev pub answer {ℓ} : {S : Type ℓ} → Response → Handler S
answer resp r s = (some resp, s)

-- the handler if the method fits, or the mux's answer
abbrev pub for_get {ℓ} : {S : Type ℓ} → Handler S → Handler S
for_get h r s =
    let done = h r s in
    if is_get r.method then done else (some (mux_not_allowed (codes "GET, HEAD")), s)

-- "GET /v1/{db}/{table}", beside "POST /v1/{db}/query"
abbrev pub for_query : Server → Bytes → Handler PoolStore
for_query srv db r s =
    let posted = handle_execute_sql srv db r s in
    let got = handle_query_table srv db (codes "query") r s in
    if is_post r.method
    then posted
    else if is_get r.method
    then got
    else (some (mux_not_allowed (codes "GET, HEAD, POST")), s)

-- the patterns of the inner mux behind /v1, the most specific one first; /v1 itself is redirected,
-- as /v1/ has a pattern, and the link in the body of that answer is left out
unfoldable pub inner_routes : Server → List Bytes → Handler PoolStore
inner_routes srv [] r s = for_get (answer (mux_redirect r.raw_query)) r s
inner_routes srv (a ∷ []) r s =
    let listing = for_get (handle_list_databases srv) r s in
    let version = for_get (handle_version srv) r s in
    if is_nil a
    then listing
    else if str_eq a (codes "version")
    then version
    else (some mux_not_found, s)
inner_routes srv (db ∷ table ∷ []) r s =
    let tables = for_get (handle_list_tables srv db) r s in
    let query = for_query srv db r s in
    let rows = for_get (handle_query_table srv db table) r s in
    if is_nil table || is_nil db
    then (some mux_not_found, s)
    else if str_eq table (codes "tables")
    then tables
    else if str_eq table (codes "query")
    then query
    else rows
inner_routes srv _ r s = (some mux_not_found, s)

unfoldable pub inner : Server → Handler PoolStore
inner srv r s = below_v1 r.segments
  where
    below_v1 : List Bytes → Option Response × PoolStore
    below_v1 [] = (some mux_not_found, s)
    below_v1 (v ∷ rest) =
        let routed = inner_routes srv rest r s in
        if str_eq v (codes "v1") then routed else (some mux_not_found, s)

-- HandlerConfig, with SHA-256
pub record HandlerConfig : Type 0 where
  pub keys : List Bytes
  pub max_body_bytes : ℤ
  pub request_timeout : ℤ
  pub allowed_ips : List Bytes
  pub rate_on : Bool
  pub sha256 : Bytes → Bytes

abbrev pub is_public : List Bytes → Bytes → Bool
is_public (v ∷ p ∷ []) name = str_eq v (codes "v1") && str_eq p name
is_public _ name = false

-- the outer mux
unfoldable pub outer : Server → HandlerConfig → Handler PoolStore
outer srv cfg r s =
    let health = handle_health srv r s in
    let protected = with_auth cfg.sha256 cfg.keys (inner srv) r s in
    if is_get r.method && is_public r.segments (codes "health")
    then health
    else if is_get r.method && is_public r.segments (codes "openapi.json")
    then (some (write_json 200 Body.openapi), s)
    else protected

-- the middlewares around the routes: recovery, security headers, log, addresses, rate, deadline and
-- body limit
unfoldable pub chain :
    {Ip B : Type 0}
    → Addresses Ip
    → Buckets B
    → HandlerConfig
    → Handler PoolStore
    → Request
    → (PoolStore × Limiters B) × List LogLine
    → Response × ((PoolStore × Limiters B) × List LogLine)
chain net buckets cfg next = with_recovery (
    with_security_headers (
      with_logging (
        with_ip_allow net cfg.allowed_ips (
          with_rate_limit cfg.rate_on buckets (extract_ip net)
            (with_request_timeout cfg.request_timeout (with_max_body cfg.max_body_bytes next))))))

-- Server.Handler
unfoldable pub handler :
    {Ip B : Type 0}
    → Addresses Ip
    → Buckets B
    → Server
    → HandlerConfig
    → Request
    → (PoolStore × Limiters B) × List LogLine
    → Response × ((PoolStore × Limiters B) × List LogLine)
handler net buckets srv cfg = chain net buckets cfg (outer srv cfg)
