-- ===== src/Mdb/Catalog/Tests.antt =====
-- Runs of `listTablesViaODBCSyscall` on a catalog of two tables, and instances of its theorems.
use mdbapi.Base.{ℕ, ◌≡◌, refl, none, some, [], ◌∷◌, if◌then◌else◌, ltb}
use mdbapi.Base.Int.{pos}
use mdbapi.Strings.{codes}
use mdbapi.Mdb.Errors.{ok}
use mdbapi.Mdb.Catalog.{
  Call, fetch, Reply, Trace, Dll, sql_ok, return_code, sql_call, must, fetch_loop, on_stmt, on_dbc,
  on_env, from_null, list_tables_via_odbc_syscall, rune_count,
}
use mdbapi.Mdb.Catalog.Handles.{held, held-list_tables_via_odbc_syscall}
use mdbapi.Mdb.Catalog.Fetching.{names, fetched}

abbrev reply : ℕ → Reply
reply n = record { register = 0; handle = n; len_or_ind = pos 6; text = codes "t" }

-- garbage stands above the 16 bits of a return code
abbrev answer : Trace → Call → Reply
answer tr (fetch h) = record (reply 0) { register = if ltb (fetched tr) 2 then 65536 else 65636 }
answer tr _ = reply 7

abbrev two_tables : Dll
two_tables = record { answer = answer; done = λ tr. none; utf16 = λ s. none }

unfoldable running_catalog : Unit {0}
unfolding sql_ok return_code sql_call must fetch_loop on_stmt on_dbc on_env from_null
    list_tables_via_odbc_syscall rune_count names fetched
running_catalog = tt

two_names :
    (list_tables_via_odbc_syscall two_tables 3 (codes "DBQ=a") []).0
    ≡ ok (some (codes "t" ∷ codes "t" ∷ []))
unfolding running_catalog
two_names = refl

held-list_tables_via_odbc_syscall_example :
    held (list_tables_via_odbc_syscall two_tables 3 (codes "DBQ=a") []).1 ≡ some []
held-list_tables_via_odbc_syscall_example =
    held-list_tables_via_odbc_syscall two_tables 3 (codes "DBQ=a")
