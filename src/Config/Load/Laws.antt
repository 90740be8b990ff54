-- ===== src/Config/Load/Laws.antt =====
-- What a configuration that `Load` of internal/config/config.go returns is good for.
use mdbapi.Base.{
  ◌≡◌, ◌≢◌, ◌⊎◌, refl, ap, ◌∙◌, Option, none, ◌++◌, any, append-nil, Bool-cases, true, false, List,
  [], ◌∷◌, map, All, inl, inr, arith,
}
use mdbapi.Strings.{Bytes, codes, str_eq, str_eq_iff, has_suffix}
use mdbapi.Strings.Search.{Off, has_prefix_self}
use mdbapi.Config.Env.{unset_open, value_of, expand_from, expand_env}
use mdbapi.Config.Env.References.{expand_env-braced}
use mdbapi.Mdb.Errors.{Result, ok, err}
use mdbapi.Mdb.Types.{is_zero_int}
use mdbapi.Mdb.Pool.Closing.{DistinctAliases}
use mdbapi.Config.{Config, DatabaseConfig}
use mdbapi.Config.Defaults.{apply_defaults}
use mdbapi.Config.Defaults.Stable.{max_rows_set}
use mdbapi.Config.Check.{Problem, is_unset, validate}
use mdbapi.Config.Check.Valid.{IsKey, IsValid, validate-IsValid}
use mdbapi.Config.Expand.{expand_globs, db_config}
use mdbapi.Config.Expand.Distinct.{expand_globs-DistinctAliases}
use mdbapi.Config.Load.{System, loaded, glob_entries_of, resolved, checked, finish, parsed, load}

abbrev pub IsProvider : Bytes → Type 0
IsProvider p = (p ≡ codes "none") ⊎ (p ≡ codes "tsnet")

-- what the service relies on
pub record IsUsable (cfg : Config) : Type 0 where
  pub keys : All IsKey cfg.auth.keys
  pub max_rows : is_zero_int cfg.api.max_rows ≡ false
  pub distinct : DistinctAliases (map db_config cfg.databases)
  pub provider : IsProvider cfg.tunnel.provider

module _ (sys : System) where
  resolved-IsUsable :
      (cfg out : Config) (r : Result (List DatabaseConfig))
      → expand_globs sys.paths cfg.databases ≡ r
      → All IsKey cfg.auth.keys
      → is_zero_int cfg.api.max_rows ≡ false
      → IsProvider cfg.tunnel.provider
      → resolved cfg r ≡ loaded out
      → IsUsable out
  resolved-IsUsable cfg out (err e) same k m p h = absurd (cc)
  resolved-IsUsable cfg out (ok dbs) same k m p h =
      let e : out ≡ record cfg {
        databases = dbs;
        glob_entries = cfg.glob_entries ++ glob_entries_of cfg.databases;
      } =
        cc in
      rw e (record {
        keys = k;
        max_rows = m;
        distinct = expand_globs-DistinctAliases sys.paths cfg.databases dbs same;
        provider = p;
      })

  checked-IsUsable :
      (cfg out : Config) (ps : List Problem)
      → validate sys.net cfg ≡ ps
      → is_zero_int cfg.api.max_rows ≡ false
      → checked sys cfg ps ≡ loaded out
      → IsUsable out
  checked-IsUsable cfg out (p ∷ ps) same m h = absurd (cc)
  checked-IsUsable cfg out [] same m h =
      let valid = (validate-IsValid sys.net cfg).0 same in
      resolved-IsUsable cfg out (expand_globs sys.paths cfg.databases) refl valid.keys m
        valid.provider h

  parsed-IsUsable : (r : Result Config) (out : Config) → parsed sys r ≡ loaded out → IsUsable out
  unfolding finish
  parsed-IsUsable (err e) out h = absurd (cc)
  parsed-IsUsable (ok raw) out h =
      let cfg = apply_defaults raw in
      checked-IsUsable cfg out (validate sys.net cfg) refl (max_rows_set raw) h

-- A configuration that is loaded has only keys of 32 bytes or more, none of them the mark of an
-- unset variable, a row cap that is not 0, databases of distinct aliases, and a known tunnel
-- provider.
pub load-IsUsable :
    (sys : System) (path : Bytes) (cfg : Config) → load sys path ≡ loaded cfg → IsUsable cfg
unfolding load
load-IsUsable sys path cfg h = parsed-IsUsable sys _ cfg h

has_suffix_self : (s p : Bytes) → has_suffix (s ++ p) p ≡ true
unfolding has_suffix
has_suffix_self [] [] = unfold str_eq in refl
has_suffix_self [] (c ∷ p) = ground (arith, str_eq_iff (c ∷ p) (c ∷ p))
has_suffix_self (d ∷ s) p = ground (arith, has_suffix_self s p)

is_unset_value : (name : Bytes) → is_unset (unset_open ++ (name ++ codes "__")) ≡ true
is_unset_value name =
    let e : unset_open ++ (name ++ codes "__") ≡ (unset_open ++ name) ++ codes "__" = refl in
    rw (has_prefix_self unset_open (name ++ codes "__"))
      (has_suffix_self (unset_open ++ name) (codes "__"))

unset_not-IsKey :
    (k : Bytes) (ks : List Bytes) → is_unset k ≡ true → any (str_eq k) ks ≡ true → All IsKey ks → ⊥
unset_not-IsKey k [] unset here h = absurd (cc)
unset_not-IsKey k (j ∷ ks) unset here ((set, long), h) = elim (Bool-cases (str_eq k j)) [
  | inl eq ↦ absurd (cc (set, unset, ap is_unset ((str_eq_iff k j).0 eq)))
  | inr ne ↦ unset_not-IsKey k ks unset (ground (arith, ne, here)) h
]

checked-IsValid :
    (sys : System) (cfg out : Config) (ps : List Problem)
    → validate sys.net cfg ≡ ps
    → checked sys cfg ps ≡ loaded out
    → IsValid sys.net cfg
checked-IsValid sys cfg out (p ∷ ps) same h = absurd (cc)
checked-IsValid sys cfg out [] same h = (validate-IsValid sys.net cfg).0 same

unset_value :
    (env : Bytes → Option Bytes) (name : Bytes)
    → Off b'}' name
    → name ≢ []
    → env name ≡ none
    → expand_env env (codes "${" ++ (name ++ codes "}")) ≡ unset_open ++ (name ++ codes "__")
unset_value env name off some_name unset =
    expand_env-braced env [] name [] refl off some_name
    ∙ (unfold expand_env expand_from in
        rw (unset, value_of) (append-nil (unset_open ++ (name ++ codes "__"))))

-- A configuration with a key ${NAME} for a variable that is not set is refused.
pub unset_key_refused :
    (sys : System) (raw out : Config) (name : Bytes)
    → Off b'}' name
    → name ≢ []
    → sys.env name ≡ none
    → any (str_eq (expand_env sys.env (codes "${" ++ (name ++ codes "}")))) raw.auth.keys ≡ true
    → finish sys raw ≢ loaded out
unfolding finish apply_defaults
unset_key_refused sys raw out name off some_name unset there h =
    let key = expand_env sys.env (codes "${" ++ (name ++ codes "}")) in
    let e : key ≡ unset_open ++ (name ++ codes "__") =
      unset_value sys.env name off some_name unset in
    let cfg = apply_defaults raw in
    unset_not-IsKey key raw.auth.keys (rw e (is_unset_value name)) there
      (checked-IsValid sys cfg out (validate sys.net cfg) refl h).keys
