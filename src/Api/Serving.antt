-- ===== src/Api/Serving.antt =====
-- What every answer of the chain of internal/api/router.go has, and bodies over the limit.
use mdbapi.Base.{
  ◌≡◌, ◌⊎◌, refl, true, false, none, some, Option, List, [], ◌∷◌, ◌++◌, length, leb, inl, inr,
  is_nil,
}
use mdbapi.Base.Int.{ℤ, pos_part}
use mdbapi.Strings.{Bytes, codes, running_strings}
use mdbapi.Mdb.Errors.{ok}
use mdbapi.Mdb.Store.{PoolStore}
use mdbapi.Api.{Request, Response, Handler, internal_error, bad_request}
use mdbapi.Api.Access.{Addresses, extract_key, is_valid_key, extract_ip, with_auth, with_ip_allow}
use mdbapi.Api.Rate.{Buckets, Limiters, with_rate_limit}
use mdbapi.Api.Handlers.{Server, handle_execute_sql}
use mdbapi.Api.Wrapping.{
  LogLine, line, logged, request_id, with_header, with_headers, security_headers, add_headers,
  or_internal_error, with_recovery, with_security_headers, with_logging, with_request_timeout,
  with_max_body,
}
use mdbapi.Api.Chain.{HandlerConfig, inner_routes, inner, outer, chain}

-- an answer that is not a panic's has a line of its status in the log, and a panic's has none
abbrev pub IsServed : {S : Type 0} → Request → List LogLine → Response × (S × List LogLine) → Type 0
IsServed r log (resp, (s, log')) =
    ((rest : Response) × (resp ≡ with_headers security_headers (with_header (request_id r) rest)))
    × (((log' ≡ log ++ line r resp.status ∷ []))
        ⊎ ((log' ≡ log)
            × (resp ≡ with_headers security_headers (with_header (request_id r) internal_error))))

logged-IsServed :
    {S : Type 0} (r : Request) (log : List LogLine) (out : Option Response × S)
    → IsServed r log (or_internal_error r (add_headers (logged r log out).0), (logged r log out).1)
logged-IsServed r log (none, s) = ((internal_error, refl), inr (refl, refl))
logged-IsServed r log (some resp, s) = ((resp, refl), inl refl)

-- Whatever the routes do, every answer begins with the four security headers and the request's id,
-- refusals and panics included. It leaves one line in the log, with the status that is sent, except
-- for a panic, which is answered by 500 and leaves no line.
pub chain-IsServed :
    {Ip B : Type 0} (net : Addresses Ip) (buckets : Buckets B) (cfg : HandlerConfig)
    (next : Handler PoolStore) (r : Request) (s : PoolStore × Limiters B) (log : List LogLine)
    → IsServed r log (chain net buckets cfg next r (s, log))
unfolding chain with_recovery with_security_headers with_logging
chain-IsServed net buckets cfg next r s log = logged-IsServed r log (
    with_ip_allow net cfg.allowed_ips
      (with_rate_limit cfg.rate_on buckets (extract_ip net)
        (with_request_timeout cfg.request_timeout (with_max_body cfg.max_body_bytes next)))
      r s)

-- the route of a query, behind a valid key
pub outer_posts :
    (srv : Server) (cfg : HandlerConfig) (r : Request) (db : Bytes) (s : PoolStore)
    → r.method ≡ codes "POST"
    → r.segments ≡ codes "v1" ∷ db ∷ codes "query" ∷ []
    → is_nil db ≡ false
    → is_valid_key cfg.sha256 cfg.keys (extract_key r) ≡ true
    → outer srv cfg r s ≡ handle_execute_sql srv db r s
unfolding outer with_auth inner inner_routes extract_key running_strings
outer_posts srv cfg r db s post path named key = rw (post, path, named, key)

-- A query whose body is longer than the limit is refused with 400 before it is read as JSON, and
-- the store is unchanged: no SQL of it is sent. The caller has a valid key.
pub oversized_refused :
    (srv : Server) (cfg : HandlerConfig) (limit : ℤ) (r : Request) (db : Bytes) (body : Bytes)
    (s : PoolStore)
    → r.method ≡ codes "POST"
    → r.segments ≡ codes "v1" ∷ db ∷ codes "query" ∷ []
    → is_nil db ≡ false
    → r.body ≡ ok body
    → leb (length body) (pos_part limit) ≡ false
    → is_valid_key cfg.sha256 cfg.keys (extract_key r) ≡ true
    → with_max_body limit (outer srv cfg) r s
      ≡ (some (bad_request (codes "failed to read request body")), s)
unfolding with_max_body outer with_auth inner inner_routes handle_execute_sql extract_key
    running_strings
oversized_refused srv cfg limit r db body s post path named read long key =
    rw (post, path, named, read, long, key)
