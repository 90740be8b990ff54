-- ===== src/Mdb/Pool/Closing.antt =====
-- The start and the end of the pool of internal/mdb/pool.go.
use mdbapi.Base.{◌≡◌, refl, ap, ◌∙◌, false, none, List, [], ◌∷◌, map, arith, All}
use mdbapi.Base.Assoc.{lookup, lookup-insert, lookup-nil}
use mdbapi.Strings.{Bytes, str_eq, str_eq_iff, str_eq_symm, bytes_eq}
use mdbapi.Mdb.Errors.{Result, ok, err, unknown_alias}
use mdbapi.Mdb.Schema.{Db}
use mdbapi.Mdb.Driver.{Odbc, open_db}
use mdbapi.Mdb.Pool.{
  DbConfig, Pool, empty, add_opened, open_all, new_pool, conn_str_for, found_db, get, aliases,
  close,
}

-- the connection that a configured database gets when it is opened
abbrev pub opening : Bytes → Result (Db × Bytes) → Result Db
opening alias (ok (db, conn)) = ok db
opening alias (err e) = err (unknown_alias alias)

-- no later database has the alias
abbrev pub Fresh : Bytes → List DbConfig → Type 0
Fresh alias = All (λ cfg. str_eq cfg.alias alias ≡ false)

abbrev pub DistinctAliases : List DbConfig → Type 0
DistinctAliases [] = Unit
DistinctAliases (cfg ∷ cfgs) = Fresh cfg.alias cfgs × DistinctAliases cfgs

add_opened_ne :
    (cfg : DbConfig) (p : Pool) (r : Result (Db × Bytes)) (a : Bytes)
    → str_eq cfg.alias a ≡ false
    → lookup a (add_opened cfg p r).dbs ≡ lookup a p.dbs
add_opened_ne cfg p (ok (db, conn)) a h = ground (arith, lookup-insert cfg.alias a db p.dbs)
add_opened_ne cfg p (err e) a h = refl

open_all-Fresh :
    (odbc : Odbc) (cfgs : List DbConfig) (p : Pool) (a : Bytes)
    → Fresh a cfgs
    → lookup a (open_all odbc cfgs p).dbs ≡ lookup a p.dbs
unfolding open_all
open_all-Fresh odbc [] p a h = refl
open_all-Fresh odbc (cfg ∷ cfgs) p a (ne, h) =
    open_all-Fresh odbc cfgs (add_opened cfg p (open_db odbc cfg.path cfg.driver)) a h
    ∙ add_opened_ne cfg p (open_db odbc cfg.path cfg.driver) a ne

add_opened_eq :
    (cfg : DbConfig) (p : Pool) (r : Result (Db × Bytes))
    → lookup cfg.alias p.dbs ≡ none
    → found_db cfg.alias (lookup cfg.alias (add_opened cfg p r).dbs) ≡ opening cfg.alias r
add_opened_eq cfg p (ok (db, conn)) new =
    ground (arith, lookup-insert cfg.alias cfg.alias db p.dbs, str_eq_iff cfg.alias cfg.alias)
add_opened_eq cfg p (err e) new = rw new

-- the outcome of each database, from a pool that has none of them
abbrev Absent : Pool → List DbConfig → Type 0
Absent p = All (λ cfg. lookup cfg.alias p.dbs ≡ none)

Absent-add_opened :
    (cfg : DbConfig) (p : Pool) (r : Result (Db × Bytes)) (cfgs : List DbConfig)
    → Fresh cfg.alias cfgs
    → Absent p cfgs
    → Absent (add_opened cfg p r) cfgs
Absent-add_opened cfg p r [] h k = tt
Absent-add_opened cfg p r (c ∷ cfgs) (ne, h) (kc, k) = (
  add_opened_ne cfg p r c.alias (str_eq_symm c.alias cfg.alias ne) ∙ kc,
  Absent-add_opened cfg p r cfgs h k,
)

open_all_each :
    (odbc : Odbc) (cfgs : List DbConfig) (p : Pool)
    → DistinctAliases cfgs
    → Absent p cfgs
    → All
        (λ cfg.
          get (open_all odbc cfgs p) cfg.alias
          ≡ opening cfg.alias (open_db odbc cfg.path cfg.driver))
        cfgs
unfolding open_all get
open_all_each odbc [] p h k = tt
open_all_each odbc (cfg ∷ cfgs) p (fresh, h) (kc, k) =
    let r = open_db odbc cfg.path cfg.driver in
    let p' = add_opened cfg p r in
    (
      ap (found_db cfg.alias) (open_all-Fresh odbc cfgs p' cfg.alias fresh)
          ∙ add_opened_eq cfg p r kc,
      open_all_each odbc cfgs p' h (Absent-add_opened cfg p r cfgs fresh k),
    )

Absent-empty : (cfgs : List DbConfig) → Absent empty cfgs
Absent-empty [] = tt
Absent-empty (cfg ∷ cfgs) = (lookup-nil cfg.alias, Absent-empty cfgs)

-- A database that fails to open does not keep the others out: with distinct aliases, each one that
-- opens is found under its alias with its connection, and each one that fails is unknown.
pub new_pool_each :
    (odbc : Odbc) (cfgs : List DbConfig)
    → DistinctAliases cfgs
    → All
        (λ cfg.
          get (new_pool odbc cfgs) cfg.alias ≡ opening cfg.alias (open_db odbc cfg.path cfg.driver))
        cfgs
unfolding new_pool
new_pool_each odbc cfgs h = open_all_each odbc cfgs empty h (Absent-empty cfgs)

-- Close closes every open connection, after which no alias has one; but all stay listed, with their
-- connection strings.
pub close_laws :
    (p : Pool) (a : Bytes)
    → ((close p).1 ≡ map (λ entry. entry.1) p.dbs)
      × (get (close p).0 a ≡ err (unknown_alias a))
      × (conn_str_for (close p).0 a ≡ conn_str_for p a)
      × (aliases (close p).0 ≡ aliases p)
unfolding close get conn_str_for aliases
close_laws p a = (refl, ap (found_db a) (lookup-nil a), refl, refl)
