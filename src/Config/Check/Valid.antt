-- ===== src/Config/Check/Valid.antt =====
-- What `validate` of internal/config/config.go accepts, said without its messages.
use mdbapi.Base.{
  ℕ, suc, ◌≡◌, ◌↔◌, ◌⊎◌, refl, Bool, true, false, not, ◌||◌, List, [], ◌∷◌, ◌++◌, ltb, leb,
  if◌then◌else◌, is_nil, length, arith, All,
}
use mdbapi.Strings.{Bytes, codes, str_eq, str_eq_iff, contains}
use mdbapi.Config.{Config, DatabaseConfig}
use mdbapi.Config.Check.{
  Problem, Net, min_key_len, is_unset, only_if, check_key, check_keys, check_database,
  check_databases, check_address, check_addresses, check_provider, validate,
}

abbrev pub IsKey : Bytes → Type 0
IsKey k = (is_unset k ≡ false) × (leb min_key_len (length k) ≡ true)

-- a pattern alone, or an alias with its path
abbrev pub IsEntry : DatabaseConfig → Type 0
IsEntry d =
    ((is_nil d.glob ≡ false) × (is_nil d.alias ≡ true) × (is_nil d.path ≡ true))
    ⊎ ((is_nil d.glob ≡ true) × (is_nil d.alias ≡ false) × (is_nil d.path ≡ false))

abbrev pub IsAddress : Net → Bytes → Type 0
IsAddress net e = (if contains e (codes "/") then net.parses_cidr e else net.parses_ip e) ≡ true

pub record IsValid (net : Net) (cfg : Config) : Type 0 where
  pub keys : All IsKey cfg.auth.keys
  pub some_database : is_nil cfg.databases ≡ false
  pub entries : All IsEntry cfg.databases
  pub addresses : All (IsAddress net) cfg.auth.allowed_ips
  pub provider : (cfg.tunnel.provider ≡ codes "none") ⊎ (cfg.tunnel.provider ≡ codes "tsnet")

append-nil {ℓ} : {A : Type ℓ} (xs ys : List A) → (xs ++ ys ≡ []) ↔ ((xs ≡ []) × (ys ≡ []))
append-nil [] ys = (λ e. (refl, e), λ (a, b). b)
append-nil (x ∷ xs) ys = (λ e. absurd (cc), λ (a, b). absurd (cc))

only_if-nil : (b : Bool) (e : Problem) → (only_if b e ≡ []) ↔ (b ≡ false)
only_if-nil true e = (λ h. absurd (cc), λ h. absurd (cc))
only_if-nil false e = (λ h. refl, λ h. refl)

check_key-nil : (i : ℕ) (k : Bytes) → (check_key i k ≡ []) ↔ IsKey k
unfolding check_key
check_key-nil i k = ground (arith, only_if-nil (ltb (length k) min_key_len) (Problem.short_key i))

check_database-nil : (i : ℕ) (d : DatabaseConfig) → (check_database i d ≡ []) ↔ IsEntry d
unfolding check_database
check_database-nil i d = ground (
  arith,
  append-nil (only_if (not (is_nil d.alias)) (Problem.glob_and_alias i))
      (only_if (not (is_nil d.path)) (Problem.glob_and_path i)),
  append-nil (only_if (is_nil d.alias) (Problem.alias_required i))
      (only_if (is_nil d.path) (Problem.path_required i)),
  only_if-nil (not (is_nil d.alias)) (Problem.glob_and_alias i),
  only_if-nil (not (is_nil d.path)) (Problem.glob_and_path i),
  only_if-nil (is_nil d.alias) (Problem.alias_required i),
  only_if-nil (is_nil d.path) (Problem.path_required i),
)

check_address-nil : (net : Net) (i : ℕ) (e : Bytes) → (check_address net i e ≡ []) ↔ IsAddress net e
unfolding check_address
check_address-nil net i e = ground (
  arith,
  only_if-nil (not (net.parses_cidr e)) (Problem.invalid_cidr i e),
  only_if-nil (not (net.parses_ip e)) (Problem.invalid_ip i e),
)

check_provider-nil :
    (p : Bytes) → (check_provider p ≡ []) ↔ ((p ≡ codes "none") ⊎ (p ≡ codes "tsnet"))
unfolding check_provider
check_provider-nil p = ground (
  arith,
  str_eq_iff p (codes "none"),
  str_eq_iff p (codes "tsnet"),
  only_if-nil (not (str_eq p (codes "none") || str_eq p (codes "tsnet")))
      (Problem.unknown_provider p),
)

check_keys-nil : (i : ℕ) (ks : List Bytes) → (check_keys i ks ≡ []) ↔ All IsKey ks
unfolding check_keys
check_keys-nil i [] = (λ e. tt, λ h. refl)
check_keys-nil i (k ∷ ks) = ground (
  arith,
  append-nil (check_key i k) (check_keys (suc i) ks),
  check_key-nil i k,
  check_keys-nil (suc i) ks,
)

check_databases-nil :
    (i : ℕ) (ds : List DatabaseConfig) → (check_databases i ds ≡ []) ↔ All IsEntry ds
unfolding check_databases
check_databases-nil i [] = (λ e. tt, λ h. refl)
check_databases-nil i (d ∷ ds) =
    let (there, back) = check_database-nil i d in
    let (there', back') = check_databases-nil (suc i) ds in
    let (parts, whole) = append-nil (check_database i d) (check_databases (suc i) ds) in
    (λ e. (there (parts e).0, there' (parts e).1), λ (h, hs). whole (back h, back' hs))

check_addresses-nil :
    (net : Net) (i : ℕ) (es : List Bytes) → (check_addresses net i es ≡ []) ↔ All (IsAddress net) es
unfolding check_addresses
check_addresses-nil net i [] = (λ e. tt, λ h. refl)
check_addresses-nil net i (e ∷ es) =
    let (there, back) = check_address-nil net i e in
    let (there', back') = check_addresses-nil net (suc i) es in
    let (parts, whole) = append-nil (check_address net i e) (check_addresses net (suc i) es) in
    (λ h. (there (parts h).0, there' (parts h).1), λ (h, hs). whole (back h, back' hs))

-- The configurations without a problem are just the valid ones: keys of 32 bytes or more that are
-- no mark of an unset variable, at least one database, each of them a pattern alone or an alias
-- with its path, addresses that parse, and a known tunnel provider.
pub validate-IsValid : (net : Net) (cfg : Config) → (validate net cfg ≡ []) ↔ IsValid net cfg
unfolding validate
validate-IsValid net cfg =
    let first = check_keys 0 cfg.auth.keys in
    let second = only_if (is_nil cfg.databases) Problem.no_databases in
    let third = check_databases 0 cfg.databases in
    let fourth = check_addresses net 0 cfg.auth.allowed_ips in
    let last = check_provider cfg.tunnel.provider in
    let keys = check_keys-nil 0 cfg.auth.keys in
    let some_database = only_if-nil (is_nil cfg.databases) Problem.no_databases in
    let entries = check_databases-nil 0 cfg.databases in
    let addresses = check_addresses-nil net 0 cfg.auth.allowed_ips in
    let provider = check_provider-nil cfg.tunnel.provider in
    (
      λ e.
          let (e1, r1) = (append-nil first (second ++ (third ++ (fourth ++ last)))).0 e in
          let (e2, r2) = (append-nil second (third ++ (fourth ++ last))).0 r1 in
          let (e3, r3) = (append-nil third (fourth ++ last)).0 r2 in
          let (e4, e5) = (append-nil fourth last).0 r3 in
          record {
            keys = keys.0 e1;
            some_database = some_database.0 e2;
            entries = entries.0 e3;
            addresses = addresses.0 e4;
            provider = provider.0 e5;
          },
      λ v. rw (
        keys.1 v.keys,
        some_database.1 v.some_database,
        entries.1 v.entries,
        addresses.1 v.addresses,
        provider.1 v.provider,
      ),
    )
