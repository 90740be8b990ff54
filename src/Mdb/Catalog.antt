-- ===== src/Mdb/Catalog.antt =====
-- internal/mdb/catalog_windows.go: the table names by the ODBC catalog function SQLTablesW. The DLL
-- odbc32, the context and the conversion to UTF-16 are parameters.
pub mod Handles
pub mod Fetching
mod Tests
use mdbapi.Base.{
  ℕ, zero, suc, ◌+◌, ◌*◌, ◌%◌, Bool, true, false, not, ◌&&◌, ◌||◌, Option, none, some, List, [],
  ◌∷◌, ◌++◌, ◌==◌, if◌then◌else◌,
}
use mdbapi.Base.Int.{ℤ, pos, ltb_ℤ}
use mdbapi.Strings.{Bytes, codes}
use mdbapi.Strings.Decimal.{itoa}
use mdbapi.Mdb.Errors.{Error, Result, ok, err, external, utf16_conn_str}
use mdbapi.Mdb.Exec.{Exec, pure, ◌>>=◌, ◌>>◌}
use mdbapi.Config.Glob.{rune_rest}

abbrev pub sql_handle_env : ℕ
sql_handle_env = 1

abbrev pub sql_handle_dbc : ℕ
sql_handle_dbc = 2

abbrev pub sql_handle_stmt : ℕ
sql_handle_stmt = 3

abbrev pub sql_no_data : ℕ
sql_no_data = 100

-- the procedures, by the arguments that differ between calls: the handle comes first, and a handle
-- to free or to allocate has its type in front
pub data Call : Type 0 where
  alloc_handle : ℕ → ℕ → Call
  set_env_attr : ℕ → ℕ → ℕ → Call
  driver_connect : ℕ → Bytes → ℕ → Call
  tables_of : ℕ → Bytes → Call
  fetch : ℕ → Call
  -- the column and the size of the buffer in bytes
  get_data : ℕ → ℕ → ℕ → Call
  disconnect : ℕ → Call
  free_handle : ℕ → ℕ → Call

-- the register that a call returns, and what it writes through its pointers
pub record Reply : Type 0 where
  pub register : ℕ
  pub handle : ℕ
  pub len_or_ind : ℤ
  -- UTF16ToString of the buffer
  pub text : Bytes

pub record Event : Type 0 where
  pub call : Call
  pub reply : Reply

-- the calls made so far, the last one first
abbrev pub Trace : Type 0
Trace = List Event

pub record Dll : Type 0 where
  pub answer : Trace → Call → Reply
  -- ctx.Err(), once ctx.Done() is closed
  pub done : Trace → Option Error
  -- the error of UTF16PtrFromString
  pub utf16 : Bytes → Option Error

-- r & 0xFFFF
unfoldable pub return_code : Reply → ℕ
return_code r = r.register % 65536

unfoldable pub sql_ok : ℕ → Bool
sql_ok rc = rc == 0 || rc == 1

-- sqlCall, and the calls whose result is dropped
unfoldable pub sql_call : Dll → Call → Exec Trace Reply
sql_call dll c tr = let r = dll.answer tr c in (ok r, record { call = c; reply = r } ∷ tr)

abbrev pub ok_or : Bytes → Reply → Exec Trace Reply
ok_or what r tr = (
  if sql_ok (return_code r)
      then ok r
      else err (external (what ++ (codes ": rc=" ++ itoa (return_code r)))),
  tr,
)

-- if rc := sqlCall(...); !sqlOK(rc) { return nil, fmt.Errorf("...: rc=%d", rc) }
unfoldable pub must : Dll → Bytes → Call → Exec Trace Reply
must dll what c = do r ← sql_call dll c; ok_or what r

-- defer: the calls are made behind the body, whatever it returns
abbrev pub deferring : {A : Type 0} → Dll → Call → Exec Trace A → Exec Trace A
deferring dll c m tr = let (r, tr') = m tr in (r, (sql_call dll c tr').1)

-- len([]rune(s)); the number counts the bytes of a character that are still to pass
unfoldable pub rune_count : ℕ → Bytes → ℕ
rune_count skip [] = 0
rune_count (suc skip) (c ∷ s) = rune_count skip s
rune_count zero (c ∷ s) = suc (rune_count (rune_rest c s) s)

abbrev pub with_name : Reply → List Bytes → List Bytes
with_name r tables =
    if sql_ok (return_code r) && ltb_ℤ (pos 0) r.len_or_ind then tables ++ r.text ∷ [] else tables

-- both ways in which a fetch ends the loop
abbrev pub ends : Reply → Bool
ends r = return_code r == sql_no_data || not (sql_ok (return_code r))

-- The loop, for so many rounds at most; the `none` of a result is a loop that has not ended. A fetch
-- that fails ends the loop as the end of the data does.
unfoldable pub fetch_loop : Dll → ℕ → ℕ → List Bytes → Exec Trace (Option (List Bytes))
fetch_loop dll zero stmt tables tr = (ok none, tr)
fetch_loop dll (suc n) stmt tables tr = elim (dll.done tr) [
  | some e ↦ (err e, tr)
  | none ↦ elim (ends (dll.answer tr (fetch stmt))) [
    | true ↦ (ok (some tables), (sql_call dll (fetch stmt) tr).1)
    | false ↦
        let tr' = (sql_call dll (fetch stmt) tr).1 in
        fetch_loop dll n stmt (with_name (dll.answer tr' (get_data stmt 3 (256 * 2))) tables)
          (sql_call dll (get_data stmt 3 (256 * 2)) tr').1
  ]
]

-- steps 6 and 7, on the statement handle
unfoldable pub on_stmt : Dll → ℕ → ℕ → Exec Trace (Option (List Bytes))
on_stmt dll n stmt = do
  must dll (codes "SQLTablesW") (tables_of stmt (codes "TABLE"))
  fetch_loop dll n stmt []

-- steps 4 and 5, on the connection handle
unfoldable pub on_dbc : Dll → ℕ → Bytes → ℕ → Exec Trace (Option (List Bytes))
on_dbc dll n conn dbc = do
  must dll (codes "SQLDriverConnectW") (driver_connect dbc conn (rune_count 0 conn))
  r ← must dll (codes "SQLAllocHandle(STMT)") (alloc_handle sql_handle_stmt dbc)
  deferring dll (free_handle sql_handle_stmt r.handle) (on_stmt dll n r.handle)

-- steps 2 and 3, on the environment handle; the connection is closed before its handle is freed
unfoldable pub on_env : Dll → ℕ → Bytes → ℕ → Exec Trace (Option (List Bytes))
on_env dll n conn env = do
  must dll (codes "SQLSetEnvAttr(ODBC_VERSION)") (set_env_attr env 200 3)
  r ← must dll (codes "SQLAllocHandle(DBC)") (alloc_handle sql_handle_dbc env)
  deferring dll (free_handle sql_handle_dbc r.handle)
      (deferring dll (disconnect r.handle) (on_dbc dll n conn r.handle))

-- step 1 and what follows
unfoldable pub from_null : Dll → ℕ → Bytes → Exec Trace (Option (List Bytes))
from_null dll n conn = do
  r ← must dll (codes "SQLAllocHandle(ENV)") (alloc_handle sql_handle_env 0)
  deferring dll (free_handle sql_handle_env r.handle) (on_env dll n conn r.handle)

abbrev pub converted : Dll → ℕ → Bytes → Option Error → Exec Trace (Option (List Bytes))
converted dll n conn (some e) tr = (err (Error.wrap utf16_conn_str e), tr)
converted dll n conn none tr = from_null dll n conn tr

-- listTablesViaODBCSyscall
unfoldable pub list_tables_via_odbc_syscall : Dll → ℕ → Bytes → Exec Trace (Option (List Bytes))
list_tables_via_odbc_syscall dll n conn = converted dll n conn (dll.utf16 conn)
