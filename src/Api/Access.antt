-- ===== src/Api/Access.antt =====
-- Who may call: `authMiddleware` and `ipAllowMiddleware` of internal/api/middleware.go.
use mdbapi.Base.{
  Bool, false, not, ◌&&◌, ◌||◌, Option, none, some, List, map, if◌then◌else◌, is_nil, any,
}
use mdbapi.Strings.{Bytes, codes, str_eq, has_prefix, trim_prefix, contains}
use mdbapi.Api.{Request, Response, Handler, write_error}

-- r.Header.Get gives no text for a missing header
unfoldable pub extract_key : Request → Bytes
extract_key r =
    if not (is_nil r.authorization) && has_prefix r.authorization (codes "Bearer ")
    then trim_prefix r.authorization (codes "Bearer ")
    else r.api_key

-- the loop over the hashes; ConstantTimeCompare compares bytes
unfoldable pub is_valid_key : (Bytes → Bytes) → List Bytes → Bytes → Bool
is_valid_key sha256 keys supplied = any (λ h. str_eq (sha256 supplied) h) (map sha256 keys)

abbrev pub unauthorized : Response
unauthorized = write_error 401 (codes "unauthorized") (codes "invalid or missing API key")

-- authMiddleware, without its delay
unfoldable pub with_auth {ℓ} : {S : Type ℓ} → (Bytes → Bytes) → List Bytes → Handler S → Handler S
with_auth sha256 keys next r s =
    let passed = next r s in
    if is_valid_key sha256 keys (extract_key r) then passed else (some unauthorized, s)

-- package net, over its type of addresses
pub record Addresses (Ip : Type 0) : Type 0 where
  -- net.SplitHostPort, as far as the host
  pub split_host : Bytes → Option Bytes
  pub parse_ip : Bytes → Option Ip
  -- net.ParseCIDR, as the addresses that the net contains
  pub parse_cidr : Bytes → Option (Ip → Bool)
  pub equal_ip : Ip → Ip → Bool

abbrev or_all : Bytes → Option Bytes → Bytes
or_all addr none = addr
or_all addr (some host) = host

unfoldable pub extract_ip : {Ip : Type 0} → Addresses Ip → Request → Bytes
extract_ip net r = or_all r.remote_addr (net.split_host r.remote_addr)

-- an entry of the list, as the addresses that it lets in; what does not parse lets in none
abbrev pub lets_in : {Ip : Type 0} → Addresses Ip → Bytes → Ip → Bool
lets_in net entry ip =
    if contains entry (codes "/")
    then elim (net.parse_cidr entry) [ none ↦ false | some cidr ↦ cidr ip ]
    else elim (net.parse_ip entry) [ none ↦ false | some allowed ↦ net.equal_ip allowed ip ]

unfoldable pub is_allowed : {Ip : Type 0} → Addresses Ip → List Bytes → Option Ip → Bool
is_allowed net allow_list none = false
is_allowed net allow_list (some ip) = any (λ entry. lets_in net entry ip) allow_list

abbrev pub access_denied : Response
access_denied = write_error 403 (codes "forbidden") (codes "access denied")

-- ipAllowMiddleware
unfoldable pub with_ip_allow {ℓ} :
    {S : Type ℓ} {Ip : Type 0} → Addresses Ip → List Bytes → Handler S → Handler S
with_ip_allow net allow_list next r s =
    let passed = next r s in
    if is_nil allow_list || is_allowed net allow_list (net.parse_ip (extract_ip net r))
    then passed
    else (some access_denied, s)
