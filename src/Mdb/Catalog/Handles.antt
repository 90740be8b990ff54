-- ===== src/Mdb/Catalog/Handles.antt =====
-- The handles that `listTablesViaODBCSyscall` of internal/mdb/catalog_windows.go takes and frees.
use mdbapi.Base.{
  ℕ, zero, suc, ◌-◌, ◌≡◌, ◌∙◌, refl, Bool, true, ◌&&◌, ◌||◌, Option, none, some, List, [], ◌∷◌,
  ◌==◌, if◌then◌else◌, any, arith, Bool-cases, Option-cases, inl, inr,
}
use mdbapi.Strings.{Bytes}
use mdbapi.Mdb.Exec.{Exec, ◌>>=◌}
use mdbapi.Mdb.Catalog.{
  Call, alloc_handle, set_env_attr, driver_connect, tables_of, fetch, get_data, disconnect,
  free_handle, Reply, Event, Trace, Dll, sql_ok, return_code, sql_call, must, ends, fetch_loop,
  on_stmt, on_dbc, on_env, from_null, list_tables_via_odbc_syscall, deferring,
}

-- the handles that are open, each with its type, the youngest first
abbrev pub Open : Type 0
Open = List (ℕ × ℕ)

abbrev same : ℕ × ℕ → ℕ × ℕ → Bool
same a b = a.0 == b.0 && a.1 == b.1

-- a call on an open handle
abbrev using : ℕ → ℕ → Open → Option Open
using kind h open_now = if any (same (kind, h)) open_now then some open_now else none

-- the youngest handle is freed
abbrev freed : ℕ → ℕ → Open → Option Open
freed kind h [] = none
freed kind h (top ∷ rest) = if same (kind, h) top then some rest else none

abbrev allocated : ℕ → Reply → Open → Open
allocated kind r open_now = if sql_ok (return_code r) then (kind, r.handle) ∷ open_now else open_now

-- what is open after a call; `none` is a call on a handle that is not open, or a free of one that
-- is not the youngest
abbrev pub after_call : Call → Reply → Open → Option Open
after_call (alloc_handle kind parent) r o =
    if kind == 1 || any (same (kind - 1, parent)) o then some (allocated kind r o) else none
after_call (set_env_attr h attr v) r o = using 1 h o
after_call (driver_connect h conn len) r o = using 2 h o
after_call (tables_of h kind) r o = using 3 h o
after_call (fetch h) r o = using 3 h o
after_call (get_data h col size) r o = using 3 h o
after_call (disconnect h) r o = using 2 h o
after_call (free_handle kind h) r o = freed kind h o

abbrev next_open : Event → Option Open → Option Open
next_open e none = none
next_open e (some o) = after_call e.call e.reply o

pub held : Trace → Option Open
held [] = some []
held (e ∷ tr) = next_open e (held tr)

-- `m` leaves the open handles as it found them
abbrev Keeps : {A : Type 0} → Open → Exec Trace A → Type 0
Keeps o m = (tr : Trace) → held tr ≡ some o → held (m tr).1 ≡ some o

held-sql_call :
    (dll : Dll) (c : Call) (tr : Trace) (o : Open)
    → held tr ≡ some o
    → held (sql_call dll c tr).1 ≡ after_call c (dll.answer tr c) o
unfolding held sql_call
held-sql_call dll c tr o h = rw h

must-Keeps :
    {A : Type 0} (dll : Dll) (what : Bytes) (c : Call) (f : Reply → Exec Trace A) (o : Open)
    → ((r : Reply) → after_call c r o ≡ some o)
    → ((r : Reply) → Keeps o (f r))
    → Keeps o (must dll what c >>= f)
unfolding must
must-Keeps dll what c f o legal keep tr h =
    let made = held-sql_call dll c tr o h ∙ legal (dll.answer tr c) in
    elim (Bool-cases (sql_ok (return_code (dll.answer tr c)))) [
      | inl good ↦ unfold sql_call in rw good (keep (dll.answer tr c) _ made)
      | inr bad ↦ unfold sql_call in rw bad made
    ]

deferring-Keeps :
    {A : Type 0} (dll : Dll) (c : Call) (m : Exec Trace A) (o o' : Open) (tr : Trace)
    → ((r : Reply) → after_call c r o ≡ some o')
    → held (m tr).1 ≡ some o
    → held (deferring dll c m tr).1 ≡ some o'
deferring-Keeps dll c m o o' tr legal h =
    held-sql_call dll c (m tr).1 o h ∙ legal (dll.answer (m tr).1 c)

-- A handle that is allocated and freed by a deferred call is open in between.
alloc-Keeps :
    {A : Type 0} (dll : Dll) (what : Bytes) (kind parent : ℕ) (body : Reply → Exec Trace A)
    (o : Open)
    → (kind == 1 || any (same (kind - 1, parent)) o) ≡ true
    → ((r : Reply) → Keeps ((kind, r.handle) ∷ o) (body r))
    → Keeps o (
        must dll what (alloc_handle kind parent) >>= λ r.
        deferring dll (free_handle kind r.handle) (body r))
unfolding must
alloc-Keeps dll what kind parent body o legal keep tr h =
    let c = alloc_handle kind parent in
    let r = dll.answer tr c in
    let made = held-sql_call dll c tr o h in
    elim (Bool-cases (sql_ok (return_code r))) [
      | inl good ↦
          unfold sql_call in
          rw good (
            deferring-Keeps dll (free_handle kind r.handle) (body r) ((kind, r.handle) ∷ o) o _
              (λ s. ground arith) (keep r _ (made ∙ ground arith)))
      | inr bad ↦ unfold sql_call in rw bad (made ∙ ground arith)
    ]

fetch_loop-Keeps :
    (dll : Dll) (n stmt : ℕ) (tables : List Bytes) (o : Open)
    → Keeps ((3, stmt) ∷ o) (fetch_loop dll n stmt tables)
unfolding fetch_loop
fetch_loop-Keeps dll zero stmt tables o tr h = h
fetch_loop-Keeps dll (suc n) stmt tables o tr h =
    let made = held-sql_call dll (fetch stmt) tr ((3, stmt) ∷ o) h in
    let tr' = (sql_call dll (fetch stmt) tr).1 in
    let read = held-sql_call dll (get_data stmt 3 512) tr' ((3, stmt) ∷ o) (made ∙ ground arith) in
    elim (Option-cases (dll.done tr)) [
      | inr (e, stopped) ↦ rw (stopped, fetch_loop) h
      | inl running ↦
          rw (running, fetch_loop)
            (elim (Bool-cases (ends (dll.answer tr (fetch stmt)))) [
              | inl over ↦ rw over (made ∙ ground arith)
              | inr more ↦ rw more (fetch_loop-Keeps dll n stmt _ o _ (read ∙ ground arith))
            ])
    ]

on_stmt-Keeps : (dll : Dll) (n stmt : ℕ) (o : Open) → Keeps ((3, stmt) ∷ o) (on_stmt dll n stmt)
unfolding on_stmt
on_stmt-Keeps dll n stmt o =
    must-Keeps dll _ _ _ ((3, stmt) ∷ o) (λ r. ground arith) (λ r. fetch_loop-Keeps dll n stmt [] o)

on_dbc-Keeps :
    (dll : Dll) (n : ℕ) (conn : Bytes) (dbc : ℕ) (o : Open)
    → Keeps ((2, dbc) ∷ o) (on_dbc dll n conn dbc)
unfolding on_dbc
on_dbc-Keeps dll n conn dbc o =
    must-Keeps dll _ _ _ ((2, dbc) ∷ o) (λ r. ground arith)
      (λ r.
        alloc-Keeps dll _ 3 dbc (λ r'. on_stmt dll n r'.handle) ((2, dbc) ∷ o) (ground arith)
          (λ r'. on_stmt-Keeps dll n r'.handle ((2, dbc) ∷ o)))

on_env-Keeps :
    (dll : Dll) (n : ℕ) (conn : Bytes) (env : ℕ) (o : Open)
    → Keeps ((1, env) ∷ o) (on_env dll n conn env)
unfolding on_env
on_env-Keeps dll n conn env o =
    must-Keeps dll _ _ _ ((1, env) ∷ o) (λ r. ground arith)
      (λ r.
        alloc-Keeps dll _ 2 env
          (λ r'. deferring dll (disconnect r'.handle) (on_dbc dll n conn r'.handle)) ((1, env) ∷ o)
          (ground arith)
          (λ r' tr h.
            let o' : Open = (2, r'.handle) ∷ (1, env) ∷ o in
            deferring-Keeps dll (disconnect r'.handle) (on_dbc dll n conn r'.handle) o' o' tr
              (λ s. ground arith) (on_dbc-Keeps dll n conn r'.handle ((1, env) ∷ o) tr h)))

from_null-Keeps : (dll : Dll) (n : ℕ) (conn : Bytes) → Keeps [] (from_null dll n conn)
unfolding from_null
from_null-Keeps dll n conn =
    alloc-Keeps dll _ 1 0 (λ r. on_env dll n conn r.handle) [] refl
      (λ r. on_env-Keeps dll n conn r.handle [])

-- Whatever the procedures of the DLL return, every call is made on a handle that is open, and each
-- handle that was allocated is freed once, the youngest first, whether the tables are listed or an
-- error is returned from any of the steps.
pub held-list_tables_via_odbc_syscall :
    (dll : Dll) (n : ℕ) (conn : Bytes)
    → held (list_tables_via_odbc_syscall dll n conn []).1 ≡ some []
unfolding list_tables_via_odbc_syscall held
held-list_tables_via_odbc_syscall dll n conn = elim (Option-cases (dll.utf16 conn)) [
  | inl fine ↦ rw fine (from_null-Keeps dll n conn [] refl)
  | inr (e, bad) ↦ rw bad
]
