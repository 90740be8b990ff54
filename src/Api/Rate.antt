-- ===== src/Api/Rate.antt =====
-- `rateLimitMiddleware` of internal/api/middleware.go, over the token bucket of
-- golang.org/x/time/rate. Times are in nanoseconds.
use mdbapi.Base.{ℕ, ◌+◌, Bool, Option, none, some, List, [], ◌∷◌, if◌then◌else◌, ltb}
use mdbapi.Base.Assoc.{lookup, insert}
use mdbapi.Strings.{Bytes, codes, bytes_eq}
use mdbapi.Api.{Request, Response, Handler, json_type, Body}

-- rate.Limiter, for the configured rate and burst: a new one, and Allow at a time
pub record Buckets (B : Type 0) : Type 0 where
  pub new_limiter : B
  pub allow : ℕ → B → Bool × B

-- rateLimiterEntry
pub record Entry (B : Type 0) : Type 0 where
  pub limiter : B
  pub last_seen : ℕ

abbrev pub entry_or_new : {B : Type 0} → Buckets B → Option (Entry B) → B
entry_or_new buckets none = buckets.new_limiter
entry_or_new buckets (some e) = e.limiter

abbrev pub Limiters : Type 0 → Type 0
Limiters B = List (Bytes × Entry B)

-- one request of an address: whether it may pass, and the limiters afterwards
unfoldable pub admit : {B : Type 0} → Buckets B → ℕ → Bytes → Limiters B → Bool × Limiters B
admit buckets now ip limiters =
    let (pass, b) = buckets.allow now (entry_or_new buckets (lookup ip limiters)) in
    (pass, insert ip (record { limiter = b; last_seen = now }) limiters)

abbrev pub stale_after : ℕ
stale_after = 600000000000

-- a round of the background clean-up
unfoldable pub clean_up : {B : Type 0} → ℕ → Limiters B → Limiters B
clean_up now [] = []
clean_up now ((ip, e) ∷ limiters) =
    let rest = clean_up now limiters in
    if ltb (e.last_seen + stale_after) now then rest else (ip, e) ∷ rest

abbrev pub too_many : Response
too_many = record {
  status = 429;
  headers = (codes "Retry-After", codes "1") ∷ json_type ∷ [];
  body = Body.error (codes "rate_limited") (codes "too many requests");
}

-- rateLimitMiddleware for a positive rate, on a state that holds the limiters beside another one
abbrev pub limited {ℓ} :
    {S : Type ℓ} {B : Type 0}
    → Handler S
    → Request
    → S
    → Bool × Limiters B
    → Option Response × (S × Limiters B)
limited next r s (pass, limiters) =
    let (resp, s') = next r s in
    if pass then (resp, (s', limiters)) else (some too_many, (s, limiters))

unfoldable pub with_rate_limit {ℓ} :
    {S : Type ℓ} {B : Type 0}
    → Bool
    → Buckets B
    → (Request → Bytes)
    → Handler S
    → Handler (S × Limiters B)
with_rate_limit on buckets ip_of next r (s, limiters) =
    let (resp, s') = next r s in
    if on
    then limited next r s (admit buckets r.arrival (ip_of r) limiters)
    else (resp, (s', limiters))
