-- ===== src/Watcher/Running/Lost.antt =====
-- What becomes of a database that could not be opened when the service started, in
-- internal/watcher/watcher.go and internal/mdb/pool.go.
use mdbapi.Base.{◌≡◌, true, false, none, List, [], ◌∷◌, any, is_some, arith, Bool-cases, inl, inr}
use mdbapi.Base.Assoc.{lookup, keys, lookup-insert, lookup-cons, lookup-nil}
use mdbapi.Strings.{Bytes, str_eq, str_eq_iff, bytes_eq, equal_fold}
use mdbapi.Mdb.Errors.{Result, ok, err, unknown_alias}
use mdbapi.Mdb.Driver.{Odbc, open_db}
use mdbapi.Mdb.Schema.{Db}
use mdbapi.Mdb.Pool
use mdbapi.Mdb.Pool.{Pool, DbConfig, aliases, registered, register}
use mdbapi.Watcher.Adding.{equal_fold_refl}
use mdbapi.Watcher.Registrars.{pool_registrar}
use mdbapi.Watcher.Running.{Watcher, Event, run}
use mdbapi.Watcher.Running.Keeping.{run-Keeps}

-- an alias that the pool lists, without a connection
pub record IsLost (alias : Bytes) (p : Pool) : Type 0 where
  pub listed : is_some (lookup alias p.paths) ≡ true
  pub closed : lookup alias p.dbs ≡ none

listed-any :
    (alias : Bytes) (m : List (Bytes × Bytes))
    → is_some (lookup alias m) ≡ true
    → any (λ existing. equal_fold existing alias) (keys m) ≡ true
listed-any alias [] h = absurd (ground (arith, lookup-nil {V = Bytes} alias))
listed-any alias ((k, v) ∷ m) h = elim (Bool-cases (str_eq k alias)) [
  | inl same ↦ rw ((str_eq_iff k alias).0 same, equal_fold_refl alias)
  | inr other ↦ ground (arith, other, lookup-cons alias k v m, listed-any alias m)
]

other_alias :
    (alias new : Bytes) (p : Pool)
    → any (λ existing. equal_fold existing new) (aliases p) ≡ false
    → IsLost alias p
    → str_eq new alias ≡ false
unfolding aliases
other_alias alias new p unlisted h = elim (Bool-cases (str_eq new alias)) [
  | inr other ↦ other
  | inl same ↦
      let e = (str_eq_iff new alias).0 same in
      let clash = rw e at unlisted in absurd (cc (clash, listed-any alias p.paths h.listed))
]

registered-IsLost :
    (alias : Bytes) (cfg : DbConfig) (p : Pool) (r : Result (Db × Bytes))
    → str_eq cfg.alias alias ≡ false
    → IsLost alias p
    → IsLost alias (registered cfg p r).1
registered-IsLost alias cfg p (err e) other h = h
registered-IsLost alias cfg p (ok (db, conn)) other h = record {
  listed = ground (arith, other, h.listed, lookup-insert cfg.alias alias cfg.path p.paths);
  closed = rw (lookup-insert cfg.alias alias db p.dbs, other) h.closed;
}

register-IsLost :
    (odbc : Odbc) (alias : Bytes) (cfg : DbConfig) (p : Pool)
    → any (λ existing. equal_fold existing cfg.alias) (aliases p) ≡ false
    → IsLost alias p
    → IsLost alias (register odbc cfg p).1
unfolding register
register-IsLost odbc alias cfg p unlisted h = elim (Bool-cases (is_some (lookup cfg.alias p.dbs))) [
  | inl there ↦ rw there h
  | inr closed ↦ rw closed (
      registered-IsLost alias cfg p (open_db odbc cfg.path cfg.driver)
        (other_alias alias cfg.alias p unlisted h) h)
]

-- A database that the pool lists without a connection, as it does one that could not be opened at
-- the start, never gets one from the watcher: after every sequence of polls and file events, with
-- drivers and a file system by which it may open now, it is still unknown.
pub get-run_lost :
    (odbc : Odbc) (alias : Bytes) (w : Watcher) (events : List Event) (p : Pool)
    → IsLost alias p
    → Pool.get (run (pool_registrar odbc) w events p).1 alias ≡ err (unknown_alias alias)
unfolding Pool.get
get-run_lost odbc alias w events p h =
    let kept =
      run-Keeps (pool_registrar odbc) (IsLost alias)
        (λ cfg q unlisted. register-IsLost odbc alias cfg q unlisted) w events p h in
    rw kept.closed
