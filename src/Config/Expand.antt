-- ===== src/Config/Expand.antt =====
-- `expandGlobs` of internal/config/glob.go: from the entries of the configuration to one entry for
-- each file.
pub mod Distinct
use mdbapi.Base.{Bool, Option, none, some, List, [], ◌∷◌, ◌++◌, map, if◌then◌else◌, is_nil, is_some}
use mdbapi.Base.Assoc.{lookup, insert}
use mdbapi.Strings.{Bytes, bytes_eq, to_lower}
use mdbapi.Mdb.Errors.{Error, Result, ok, err, wrapping, glob_pattern, glob_alias}
use mdbapi.Mdb.Pool.{DbConfig}
use mdbapi.Config.{DatabaseConfig}
use mdbapi.Config.Glob.{FilePath, match_glob, glob_base, alias_from_path}

-- the paths by lower-case alias, and the entries so far
pub record Expansion : Type 0 where
  pub seen : List (Bytes × Bytes)
  pub result : List DatabaseConfig

-- an entry whose alias was seen is passed by
unfoldable pub admit : DatabaseConfig → Expansion → Expansion
admit entry x =
    let key = to_lower entry.alias in
    if is_some (lookup key x.seen)
    then x
    else (record { seen = insert key entry.path x.seen; result = x.result ++ entry ∷ [] })

abbrev pub matched : Bytes → Bytes → DatabaseConfig
matched alias path = record { alias = alias; path = path; glob = []; driver = [] }

-- go on with what a step returns
abbrev pub after {ℓ κ} : {A : Type ℓ} {B : Type κ} → Result A → (A → Result B) → Result B
after (ok a) f = f a
after (err e) f = err e

unfoldable pub add_matches : FilePath → Bytes → List Bytes → Expansion → Result Expansion
add_matches fp pattern [] x = ok x
add_matches fp pattern (path ∷ paths) x =
    after (wrapping (glob_alias pattern path) (alias_from_path fp (glob_base fp pattern) path))
      (λ alias. add_matches fp pattern paths (admit (matched alias path) x))

unfoldable pub expand_entry : FilePath → DatabaseConfig → Expansion → Result Expansion
expand_entry fp entry x =
    if is_nil entry.glob
    then ok (admit entry x)
    else after (wrapping (glob_pattern entry.glob) (match_glob fp entry.glob))
        (λ paths. add_matches fp entry.glob paths x)

unfoldable pub expand_entries : FilePath → List DatabaseConfig → Expansion → Result Expansion
expand_entries fp [] x = ok x
expand_entries fp (entry ∷ entries) x =
    after (expand_entry fp entry x) (λ y. expand_entries fp entries y)

unfoldable pub expand_globs : FilePath → List DatabaseConfig → Result (List DatabaseConfig)
expand_globs fp entries =
    after (expand_entries fp entries (record { seen = []; result = [] })) (λ x. ok x.result)

-- what the service gives to NewPool (internal/winservice/service.go)
abbrev pub db_config : DatabaseConfig → DbConfig
db_config d = record { alias = d.alias; path = d.path; driver = d.driver }
