-- ===== src/Mdb/Catalog/Fetching.antt =====
-- The table names that `listTablesViaODBCSyscall` of internal/mdb/catalog_windows.go returns.
use mdbapi.Base.{
  ℕ, suc, ◌≤◌, ◌≡◌, Bool, true, false, Option, none, some, List, [], ◌∷◌, if◌then◌else◌,
}
use mdbapi.Strings.{Bytes}
use mdbapi.Mdb.Errors.{Result, ok, err}
use mdbapi.Mdb.Exec.{Exec}
use mdbapi.Mdb.Catalog.{Call, fetch, get_data, Reply, Trace, Dll, ends, with_name}

abbrev named : Call → Reply → List Bytes → List Bytes
named (get_data h col size) r names = with_name r names
named _ r names = names

-- the names that calls of SQLGetData gave, in their order
unfoldable pub names : Trace → List Bytes
names [] = []
names (e ∷ tr) = named e.call e.reply (names tr)

abbrev counted : Call → Reply → ℕ → ℕ
counted (fetch h) r n = if ends r then n else suc n
counted _ r n = n

-- the fetches that gave a row
unfoldable pub fetched : Trace → ℕ
fetched [] = 0
fetched (e ∷ tr) = counted e.call e.reply (fetched tr)

-- the catalog has at most `n` rows
abbrev pub HasRows : Dll → ℕ → Type 0
HasRows dll n = (tr : Trace) (stmt : ℕ) → n ≤ fetched tr → ends (dll.answer tr (fetch stmt)) ≡ true

-- a result beside the names that were read
abbrev pub IsListing : Result (Option (List Bytes)) → List Bytes → Type 0
IsListing (ok none) read = ⊥
IsListing (ok (some tables)) read = tables ≡ read
IsListing (err e) read = read ≡ []

-- the other procedures
abbrev quiet : Call → Bool
quiet (fetch h) = false
quiet (get_data h col size) = false
quiet _ = true

-- nothing was read yet
abbrev IsFresh : Trace → Type 0
IsFresh tr = (names tr ≡ []) × (fetched tr ≡ 0)

abbrev Lists : Exec Trace (Option (List Bytes)) → Type 0
Lists m = (tr : Trace) → IsFresh tr → IsListing (m tr).0 (names (m tr).1)
