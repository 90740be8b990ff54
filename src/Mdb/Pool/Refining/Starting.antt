-- ===== src/Mdb/Pool/Refining/Starting.antt =====
-- The pool that NewPool of internal/mdb/pool.go makes, as a state for each alias.
use mdbapi.Base.{◌≡◌, ◌∙◌, refl, ap, Option, none, some, List, [], ◌∷◌, arith, Bool-cases, inl, inr}
use mdbapi.Base.Assoc.{lookup, insert, lookup-insert}
use mdbapi.Strings.{Bytes, str_eq, str_eq_iff, bytes_eq}
use mdbapi.Mdb.Errors.{Error, Result, ok, err}
use mdbapi.Mdb.Types.Encoding.{Time}
use mdbapi.Mdb.Schema.{Db}
use mdbapi.Mdb.Driver.{Odbc, open_db}
use mdbapi.Mdb.Pool.{DbConfig, Pool, add_opened, open_all, new_pool, empty}
use mdbapi.Mdb.Pool.Abstract
use mdbapi.Mdb.Pool.Refining.{run, entry, Shows, add-Shows, run-Shows}
use mdbapi.Mdb.Pool.Abstract.{
  Entry, absent, listed, open_at, Entries, Op, get, register, describe, close, Reply, connection,
  registered, described, closed, update,
}

start_at-entry :
    (cfg : DbConfig) (o : Option Db) (q : Option Bytes) (x : Error)
    → (q ≡ none → o ≡ none)
    → entry o (some cfg.path) ≡ Abstract.start_at cfg (entry o q) (err x)
start_at-entry cfg none none x h = refl
start_at-entry cfg none (some path) x h = refl
start_at-entry cfg (some db) none x h = absurd (let e = h refl in cc)
start_at-entry cfg (some db) (some path) x h = refl

relisted-Shows :
    (cfg : DbConfig) (p : Pool) (m : Entries) (x : Error)
    → Shows p m
    → Shows
        (record p { paths = insert cfg.alias cfg.path p.paths })
        (update cfg.alias (Abstract.start_at cfg (m cfg.alias) (err x)) m)
relisted-Shows cfg p m x (all_listed, same) = (
  (λ a h. ground (arith, lookup-insert cfg.alias a cfg.path p.paths, all_listed a)),
  λ a. elim (Bool-cases (str_eq cfg.alias a)) [
    | inl here ↦
        rw (lookup-insert cfg.alias a cfg.path p.paths, here, ← (str_eq_iff cfg.alias a).0 here)
          (start_at-entry cfg (lookup cfg.alias p.dbs) (lookup cfg.alias p.paths) x
              (all_listed cfg.alias)
            ∙ ap (λ e. Abstract.start_at cfg e (err x)) (same cfg.alias))
    | inr other ↦ rw (lookup-insert cfg.alias a cfg.path p.paths, other) (same a)
  ],
)

add_opened-Shows :
    (cfg : DbConfig) (p : Pool) (m : Entries) (r : Result (Db × Bytes))
    → Shows p m
    → Shows (add_opened cfg p r) (update cfg.alias (Abstract.start_at cfg (m cfg.alias) r) m)
add_opened-Shows cfg p m (ok (db, conn)) shows = add-Shows cfg db conn p m shows
add_opened-Shows cfg p m (err x) shows = relisted-Shows cfg p m x shows

open_all-Shows :
    (odbc : Odbc) (cfgs : List DbConfig) (p : Pool) (m : Entries)
    → Shows p m
    → Shows (open_all odbc cfgs p) (Abstract.start odbc cfgs m)
unfolding open_all Abstract.start
open_all-Shows odbc [] p m shows = shows
open_all-Shows odbc (cfg ∷ cfgs) p m shows =
    open_all-Shows odbc cfgs _ _ (add_opened-Shows cfg p m (open_db odbc cfg.path cfg.driver) shows)

-- A pool that was made for any configurations answers any calls of Get, Register, Close and
-- Databases, the last read at one alias, as a plain state for each alias does, whatever opens.
pub run-new_pool :
    (odbc : Odbc) (ping : Db → Option Bytes) (stat : Bytes → Option Time) (cfgs : List DbConfig)
    (ops : List Op)
    → run odbc ping stat (new_pool odbc cfgs) ops
      ≡ Abstract.run odbc ping stat (Abstract.start odbc cfgs (λ a. absent)) ops
unfolding new_pool lookup
run-new_pool odbc ping stat cfgs ops =
    run-Shows odbc ping stat ops (open_all odbc cfgs empty) _
      (open_all-Shows odbc cfgs empty _ ((λ a h. refl), λ a. refl))
