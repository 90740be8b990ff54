-- ===== src/Api/Guarding.antt =====
-- What the chain of internal/api/router.go keeps out.
use mdbapi.Base.{
  ℕ, ◌+◌, ◌≡◌, ◌⊎◌, refl, ap, Bool, true, false, ◌&&◌, ◌||◌, Option, none, some, List, [], ◌∷◌, map,
  is_nil, any, All, arith, Bool-cases, inl, inr,
}
use mdbapi.Base.Assoc.{lookup, lookup-insert}
use mdbapi.Strings.{Bytes, codes, str_eq, str_eq_iff, bytes_eq}
use mdbapi.Mdb.Store.{PoolStore}
use mdbapi.Api.{Request, Response, Handler}
use mdbapi.Api.Access.{
  Addresses, extract_key, is_valid_key, unauthorized, with_auth, is_allowed, extract_ip,
  with_ip_allow,
}
use mdbapi.Api.Rate.{Buckets, entry_or_new, Limiters, admit, limited, with_rate_limit}
use mdbapi.Api.Handlers.{Server}
use mdbapi.Base.Int.{ℤ, pos, pos_part, ltb_ℤ}
use mdbapi.Mdb.Errors.{Result}
use mdbapi.Api.Wrapping.{
  LogLine, logged, limited_body, sooner, add_headers, or_internal_error, with_recovery,
  with_security_headers, with_logging, with_request_timeout, with_max_body,
}
use mdbapi.Api.Chain.{is_get, HandlerConfig, is_public, outer, chain, handler}

-- the two routes that need no key
abbrev pub is_open : Request → Bool
is_open r =
    is_get r.method
    && (is_public r.segments (codes "health") || is_public r.segments (codes "openapi.json"))

outer_refuses :
    (srv : Server) (cfg : HandlerConfig) (r : Request) (s : PoolStore)
    → is_valid_key cfg.sha256 cfg.keys (extract_key r) ≡ false
    → is_open r ≡ false
    → outer srv cfg r s ≡ (some unauthorized, s)
unfolding outer with_auth
outer_refuses srv cfg r s bad closed =
    let no_health : (is_get r.method && is_public r.segments (codes "health")) ≡ false =
      ground arith in
    let no_openapi : (is_get r.method && is_public r.segments (codes "openapi.json")) ≡ false =
      ground arith in
    rw (no_health, no_openapi, bad)

-- the status of an answer that a refused caller gets
abbrev pub IsRefusal : Option Response → Type 0
IsRefusal none = ⊥
IsRefusal (some resp) = (resp.status ≡ 401) ⊎ ((resp.status ≡ 403) ⊎ (resp.status ≡ 429))

-- refused, with the store as it was
abbrev Refuses : {B : Type 0} → PoolStore → Option Response × (PoolStore × Limiters B) → Type 0
Refuses s (resp, (s', limiters)) = IsRefusal resp × (s' ≡ s)

-- the deadline and the body limit leave the key and the route as they are
wrapped_refuses :
    (srv : Server) (cfg : HandlerConfig) (timeout limit : ℤ) (r : Request) (s : PoolStore)
    → is_valid_key cfg.sha256 cfg.keys (extract_key r) ≡ false
    → is_open r ≡ false
    → with_request_timeout timeout (with_max_body limit (outer srv cfg)) r s
      ≡ (some unauthorized, s)
unfolding with_request_timeout with_max_body extract_key
wrapped_refuses srv cfg timeout limit r s bad closed =
    let body : Result Bytes = limited_body limit r.body in
    let by : ℕ = r.arrival + pos_part timeout in
    elim (Bool-cases (ltb_ℤ (pos 0) timeout)) [
      | inl on ↦ rw on (
          outer_refuses srv cfg (record r { body = body; deadline = sooner by r.deadline }) s bad
            closed)
      | inr off ↦ rw off (outer_refuses srv cfg (record r { body = body }) s bad closed)
    ]

limited-Refuses :
    {B : Type 0} (next : Handler PoolStore) (r : Request) (s : PoolStore) (d : Bool × Limiters B)
    → next r s ≡ (some unauthorized, s)
    → Refuses s (limited next r s d)
limited-Refuses next r s (true, limiters) h = rw h (inl refl, refl)
limited-Refuses next r s (false, limiters) h = (inr (inr refl), refl)

rate-Refuses :
    {B : Type 0} (on : Bool) (buckets : Buckets B) (ip_of : Request → Bytes)
    (next : Handler PoolStore) (r : Request) (s : PoolStore) (limiters : Limiters B)
    → next r s ≡ (some unauthorized, s)
    → Refuses s (with_rate_limit on buckets ip_of next r (s, limiters))
unfolding with_rate_limit
rate-Refuses true buckets ip_of next r s limiters h =
    limited-Refuses next r s (admit buckets r.arrival (ip_of r) limiters) h
rate-Refuses false buckets ip_of next r s limiters h = rw h (inl refl, refl)

allow-Refuses :
    {Ip B : Type 0} (net : Addresses Ip) (allow : List Bytes)
    (next : Handler (PoolStore × Limiters B)) (r : Request) (s : PoolStore) (limiters : Limiters B)
    → Refuses s (next r (s, limiters))
    → Refuses s (with_ip_allow net allow next r (s, limiters))
unfolding with_ip_allow
allow-Refuses net allow next r s limiters h =
    elim (Bool-cases (is_nil allow || is_allowed net allow (net.parse_ip (extract_ip net r)))) [
      | inl in_list ↦ rw in_list h
      | inr out ↦ rw out (inr (inl refl), refl)
    ]

-- the log, the security headers and the recovery keep the status and the store
observed-Refuses :
    {B : Type 0} (s : PoolStore) (r : Request) (log : List LogLine)
    (out : Option Response × (PoolStore × Limiters B))
    → Refuses s out
    → IsRefusal (some (or_internal_error r (add_headers (logged r log out).0)))
      × ((logged r log out).1.0.0 ≡ s)
observed-Refuses s r log (none, (s', limiters)) (bad, same) = absurd bad
observed-Refuses s r log (some resp, (s', limiters)) h = h

-- Without a valid key, only the health and OpenAPI routes answer: any other request gets 401, 403
-- or 429, whatever the address, the rate and the route, and the store, with its statements, is as
-- it was.
pub handler-IsRefusal :
    {Ip B : Type 0} (net : Addresses Ip) (buckets : Buckets B) (srv : Server) (cfg : HandlerConfig)
    (r : Request) (s : PoolStore) (limiters : Limiters B) (log : List LogLine)
    → is_valid_key cfg.sha256 cfg.keys (extract_key r) ≡ false
    → is_open r ≡ false
    → IsRefusal (some (handler net buckets srv cfg r ((s, limiters), log)).0)
      × ((handler net buckets srv cfg r ((s, limiters), log)).1.0.0 ≡ s)
unfolding handler chain with_recovery with_security_headers with_logging
handler-IsRefusal net buckets srv cfg r s limiters log bad closed =
    let bounded =
      with_request_timeout cfg.request_timeout (with_max_body cfg.max_body_bytes (outer srv cfg)) in
    let next = with_rate_limit cfg.rate_on buckets (extract_ip net) bounded in
    observed-Refuses s r log (with_ip_allow net cfg.allowed_ips next r (s, limiters)) (
      allow-Refuses net cfg.allowed_ips next r s limiters (
        rate-Refuses cfg.rate_on buckets (extract_ip net) bounded r s limiters
          (wrapped_refuses srv cfg cfg.request_timeout cfg.max_body_bytes r s bad closed)))

hash_member :
    (sha256 : Bytes → Bytes) (keys : List Bytes) (supplied : Bytes)
    → All (λ k. sha256 supplied ≡ sha256 k → supplied ≡ k) keys
    → any (λ h. str_eq (sha256 supplied) h) (map sha256 keys) ≡ any (str_eq supplied) keys
hash_member sha256 [] supplied h = refl
hash_member sha256 (k ∷ keys) supplied (hk, h) = ground (
  arith,
  hash_member sha256 keys supplied h,
  hk,
  ap sha256 {x = supplied} {y = k},
  str_eq_iff (sha256 supplied) (sha256 k),
  str_eq_iff supplied k,
)

-- If the supplied key's hash is that of no other key, the loop over the hashes accepts just the
-- configured keys.
pub is_valid_key-any :
    (sha256 : Bytes → Bytes) (keys : List Bytes) (supplied : Bytes)
    → All (λ k. sha256 supplied ≡ sha256 k → supplied ≡ k) keys
    → is_valid_key sha256 keys supplied ≡ any (str_eq supplied) keys
unfolding is_valid_key
is_valid_key-any sha256 keys supplied h = hash_member sha256 keys supplied h

-- Whether a request passes the rate limit does not depend on an earlier one of another address.
pub admit_isolated :
    {B : Type 0} (buckets : Buckets B) (now later : ℕ) (a b : Bytes) (limiters : Limiters B)
    → str_eq a b ≡ false
    → (admit buckets later b (admit buckets now a limiters).1).0
      ≡ (admit buckets later b limiters).0
unfolding admit
admit_isolated buckets now later a b limiters other =
    let e =
      lookup-insert a b
        (record {
          limiter = (buckets.allow now (entry_or_new buckets (lookup a limiters))).1;
          last_seen = now;
        })
        limiters in
    rw (e, other)
