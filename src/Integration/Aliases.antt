-- ===== src/Integration/Aliases.antt =====
-- `findMDBFiles`, `makeDBConfigs` and `sanitizeAlias` of cmd/integration/main.go.
pub mod Naming
mod Tests
use mdbapi.Base.{
  ℕ, suc, ◌+◌, Bool, true, false, ◌||◌, Option, none, some, List, [], ◌∷◌, ◌++◌, ◌==◌, ltb,
  if◌then◌else◌, is_nil,
}
use mdbapi.Base.Assoc.{lookup, insert}
use mdbapi.Strings.{
  Bytes, codes, bytes_eq, equal_fold, to_lower, trim_left, trim_right, trim_space, trim_suffix,
}
use mdbapi.Strings.Decimal.{itoa}
use mdbapi.Mdb.Errors.{Error, Result, ok, err}
use mdbapi.Mdb.Pool.{DbConfig}
use mdbapi.Config.Glob.{FilePath, Visit, ext, safe_runes}
use mdbapi.Api.Handlers.{str_lt}

abbrev pub is_database : Bytes → Bool
is_database path = equal_fold (ext path) (codes ".mdb") || equal_fold (ext path) (codes ".accdb")

-- sort.Strings
unfoldable pub place : Bytes → List Bytes → List Bytes
place x [] = x ∷ []
place x (y ∷ ys) = let rest = place x ys in if str_lt y x then y ∷ rest else x ∷ y ∷ ys

unfoldable pub sorted : List Bytes → List Bytes
sorted [] = []
sorted (x ∷ xs) = place x (sorted xs)

abbrev pub and_file : Visit → Result (List Bytes) → Result (List Bytes)
and_file v (err e) = err e
and_file v (ok files) = ok (if is_database v.path then v.path ∷ files else files)

-- the callback of WalkDir over what it comes by; the error is that of the entry
unfoldable pub walked : Error → List Visit → Result (List Bytes)
walked e [] = ok []
walked e (v ∷ vs) =
    let rest = walked e vs in if v.failed then err e else if v.is_dir then rest else and_file v rest

-- findMDBFiles
unfoldable pub find_mdb_files : FilePath → Error → Bytes → Result (List Bytes)
find_mdb_files fp e dir = elim (walked e (fp.walk dir)) [
  | err x ↦ err x
  | ok files ↦ ok (sorted files)
]

abbrev pub is_underscore : ℕ → Bool
is_underscore c = c == b'_'

-- sanitizeAlias
unfoldable pub sanitize_alias : Bytes → Bytes
sanitize_alias s =
    trim_right is_underscore (trim_left is_underscore (safe_runes 0 (to_lower (trim_space s))))

abbrev pub or_db : Bytes → Bytes
or_db [] = codes "db"
or_db (c ∷ s) = c ∷ s

-- the alias of a path before it is told apart from others
unfoldable pub base_alias : FilePath → Bytes → Bytes
base_alias fp p = or_db (sanitize_alias (trim_suffix (fp.base p) (ext p)))

-- the aliases and how often each was asked for
abbrev pub Used : Type 0
Used = List (Bytes × ℕ)

abbrev pub numbered : Bytes → Option ℕ → Bytes
numbered alias none = alias
numbered alias (some n) = alias ++ b'_' ∷ itoa (n + 1)

abbrev pub count_up : Option ℕ → ℕ
count_up none = 1
count_up (some n) = n + 1

abbrev pub config_at : Bytes → Bytes → DbConfig
config_at alias path = record { alias = alias; path = path; driver = [] }

-- the loop over the paths
unfoldable pub make_from : FilePath → Used → List Bytes → List DbConfig
make_from fp used [] = []
make_from fp used (p ∷ ps) =
    let alias = base_alias fp p in
    let n = lookup alias used in
    config_at (numbered alias n) p ∷ make_from fp (insert alias (count_up n) used) ps

-- makeDBConfigs
unfoldable pub make_db_configs : FilePath → List Bytes → List DbConfig
make_db_configs fp paths = make_from fp [] paths
