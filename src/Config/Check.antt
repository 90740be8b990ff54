-- ===== src/Config/Check.antt =====
-- `validate` of internal/config/config.go: every problem of a configuration, in order. The parsers
-- of addresses in Go's package net are parameters.
pub mod Valid
use mdbapi.Base.{
  ℕ, zero, suc, ◌+◌, Bool, true, false, not, ◌&&◌, ◌||◌, List, [], ◌∷◌, ◌++◌, ltb, if◌then◌else◌,
  is_nil, length,
}
use mdbapi.Strings.{
  Bytes, codes, str_eq, has_prefix, has_suffix, contains, trim_prefix, trim_suffix,
}
use mdbapi.Config.{Config, DatabaseConfig}
use mdbapi.Config.Env.{unset_open}

-- the messages, with their arguments
pub data Problem : Type 0 where
  unset_variable : ℕ → Bytes → Problem
  short_key : ℕ → Problem
  no_databases : Problem
  glob_and_alias glob_and_path alias_required path_required : ℕ → Problem
  invalid_cidr invalid_ip : ℕ → Bytes → Problem
  unknown_provider : Bytes → Problem

abbrev pub min_key_len : ℕ
min_key_len = 32

abbrev pub is_unset : Bytes → Bool
is_unset k = has_prefix k unset_open && has_suffix k (codes "__")

-- one round of a loop: at most one message
abbrev pub only_if : Bool → Problem → List Problem
only_if true e = e ∷ []
only_if false e = []

unfoldable pub check_key : ℕ → Bytes → List Problem
check_key i k =
    if is_unset k
    then unset_variable i (trim_suffix (trim_prefix k unset_open) (codes "__")) ∷ []
    else only_if (ltb (length k) min_key_len) (short_key i)

unfoldable pub check_keys : ℕ → List Bytes → List Problem
check_keys i [] = []
check_keys i (k ∷ ks) = check_key i k ++ check_keys (suc i) ks

unfoldable pub check_database : ℕ → DatabaseConfig → List Problem
check_database i db =
    if not (is_nil db.glob)
    then only_if (not (is_nil db.alias)) (glob_and_alias i)
      ++ only_if (not (is_nil db.path)) (glob_and_path i)
    else only_if (is_nil db.alias) (alias_required i) ++ only_if (is_nil db.path) (path_required i)

unfoldable pub check_databases : ℕ → List DatabaseConfig → List Problem
check_databases i [] = []
check_databases i (db ∷ dbs) = check_database i db ++ check_databases (suc i) dbs

-- net.ParseCIDR and net.ParseIP, as far as they succeed
pub record Net : Type 0 where
  pub parses_cidr : Bytes → Bool
  pub parses_ip : Bytes → Bool

unfoldable pub check_address : Net → ℕ → Bytes → List Problem
check_address net i entry =
    if contains entry (codes "/")
    then only_if (not (net.parses_cidr entry)) (invalid_cidr i entry)
    else only_if (not (net.parses_ip entry)) (invalid_ip i entry)

unfoldable pub check_addresses : Net → ℕ → List Bytes → List Problem
check_addresses net i [] = []
check_addresses net i (e ∷ es) = check_address net i e ++ check_addresses net (suc i) es

unfoldable pub check_provider : Bytes → List Problem
check_provider p =
    only_if (not (str_eq p (codes "none") || str_eq p (codes "tsnet"))) (unknown_provider p)

-- validate; no problem is its nil
unfoldable pub validate : Net → Config → List Problem
validate net cfg =
    check_keys 0 cfg.auth.keys
    ++ (only_if (is_nil cfg.databases) no_databases
        ++ (check_databases 0 cfg.databases
            ++ (check_addresses net 0 cfg.auth.allowed_ips ++ check_provider cfg.tunnel.provider)))
