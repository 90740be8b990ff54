-- ===== src/Watcher.antt =====
-- internal/watcher/watcher.go: new files that match a pattern of the configuration are registered
-- while the service runs. The registrar is an interface, which the pool implements.
pub mod Backoff
pub mod Debounce
pub mod Registrars
pub mod Adding
pub mod Racing
pub mod Running
mod Tests
use mdbapi.Base.{
  ℕ, zero, suc, ◌+◌, ◌≡◌, ◌++◌, Bool, true, false, not, ◌&&◌, ◌||◌, List, [], ◌∷◌, if◌then◌else◌,
  is_nil, any,
}
use mdbapi.Strings.{Bytes, codes, str_eq, to_lower, equal_fold}
use mdbapi.Mdb.Errors.{Error, Result, ok, err}
use mdbapi.Mdb.Pool.{DbConfig}
use mdbapi.Config.{DatabaseConfig}
use mdbapi.Config.Glob.{FilePath, ext, glob_base, alias_from_path, path_matches_glob, match_glob}

-- Registrar
pub record Registrar {ℓ} (S : Type ℓ) : Type ℓ where
  pub aliases : S → List Bytes
  pub register : DbConfig → S → Result (Unit {0}) × S

-- what the watcher relies on: a registration that fails changes nothing, one that succeeds adds a
-- new alias to the end of the list, and one of a listed alias leaves the list as it is
pub record RegistrarLaws {ℓ} {S : Type ℓ} (reg : Registrar S) : Type (ℓ ⊔ 1) where
  pub IsGood : S → Type 0
  pub keeps : (cfg : DbConfig) (s : S) → IsGood s → IsGood (reg.register cfg s).1
  pub fails :
      (cfg : DbConfig) (s : S) (e : Error)
      → (reg.register cfg s).0 ≡ err e
      → (reg.register cfg s).1 ≡ s
  pub adds :
      (cfg : DbConfig) (s : S)
      → IsGood s
      → any (λ a. str_eq a cfg.alias) (reg.aliases s) ≡ false
      → (reg.register cfg s).0 ≡ ok tt
      → reg.aliases (reg.register cfg s).1 ≡ reg.aliases s ++ cfg.alias ∷ []
  pub relists :
      (cfg : DbConfig) (s : S)
      → any (λ a. str_eq a cfg.alias) (reg.aliases s) ≡ true
      → reg.aliases (reg.register cfg s).1 ≡ reg.aliases s

pub record GlobEntry : Type 0 where
  pub pattern : Bytes
  pub base : Bytes

-- the entries that New makes
unfoldable pub glob_entries : FilePath → List DatabaseConfig → List GlobEntry
glob_entries fp [] = []
glob_entries fp (g ∷ gs) =
    let rest = glob_entries fp gs in
    if is_nil g.glob then rest else record { pattern = g.glob; base = glob_base fp g.glob } ∷ rest

unfoldable pub is_access_file : Bytes → Bool
is_access_file path =
    let e = to_lower (ext path) in str_eq e (codes ".mdb") || str_eq e (codes ".accdb")

module _ {ℓ} {S : Type ℓ} (reg : Registrar S) (fp : FilePath) where
  abbrev pub answered : S → Result (Unit {0}) × S → Bool × S
  answered s (ok _, s') = (true, s')
  answered s (err e, s') = (false, s')

  -- the part of the loop behind the match
  abbrev pub register_alias : Bytes → Result Bytes → S → Bool × S
  register_alias path (err e) s = (false, s)
  register_alias path (ok alias) s =
      let cfg : DbConfig = record { alias = alias; path = path; driver = [] } in
      if any (λ existing. equal_fold existing alias) (reg.aliases s)
      then (false, s)
      else answered s (reg.register cfg s)

  -- the loop over the patterns: the first one that matches decides
  unfoldable pub try_globs : List GlobEntry → Bytes → S → Bool × S
  try_globs [] path s = (false, s)
  try_globs (g ∷ gs) path s =
      let rest = try_globs gs path s in
      if path_matches_glob fp g.pattern path
      then register_alias path (alias_from_path fp g.base path) s
      else rest

  unfoldable pub try_register : List GlobEntry → Bytes → S → Bool × S
  try_register globs raw_path s =
      let path = fp.clean raw_path in
      if is_access_file path then try_globs globs path s else (false, s)

  -- the number of databases that were added, and the registrar afterwards
  abbrev pub count : Bool → ℕ → ℕ
  count true n = suc n
  count false n = n

  unfoldable pub try_all : List GlobEntry → List Bytes → S → ℕ × S
  try_all globs [] s = (0, s)
  try_all globs (path ∷ paths) s =
      let (added, s') = try_register globs path s in
      let (found, s'') = try_all globs paths s' in (count added found, s'')

  -- a pattern that cannot be expanded is passed by
  abbrev pub try_matches : List GlobEntry → Result (List Bytes) → S → ℕ × S
  try_matches globs (err e) s = (0, s)
  try_matches globs (ok paths) s = try_all globs paths s

  unfoldable pub poll_globs : List GlobEntry → List GlobEntry → S → ℕ × S
  poll_globs globs [] s = (0, s)
  poll_globs globs (g ∷ gs) s =
      let (n, s') = try_matches globs (match_glob fp g.pattern) s in
      let (m, s'') = poll_globs globs gs s' in (n + m, s'')

  unfoldable pub poll : List GlobEntry → S → ℕ × S
  poll globs s = poll_globs globs globs s
