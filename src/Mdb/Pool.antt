-- ===== src/Mdb/Pool.antt =====
-- internal/mdb/pool.go: the connections by alias. Each operation holds the lock from start to end,
-- so it is one step.
pub mod Laws
pub mod Closing
pub mod Abstract
pub mod Refining
mod Tests
use mdbapi.Base.{
  Bool, true, false, Option, none, some, List, [], ◌∷◌, ◌++◌, map, if◌then◌else◌, is_some,
}
use mdbapi.Base.Assoc.{lookup, insert, keys}
use mdbapi.Strings.{Bytes, codes, bytes_eq}
use mdbapi.Mdb.Errors.{Error, Result, ok, err, unknown_alias, open_database}
use mdbapi.Mdb.Types.Encoding.{Time}
use mdbapi.Mdb.Schema.{Db}
use mdbapi.Mdb.Driver.{Odbc, open_db}

pub record DbConfig : Type 0 where
  pub alias : Bytes
  pub path : Bytes
  pub driver : Bytes

pub record DbInfo : Type 0 where
  pub alias : Bytes
  pub path : Bytes
  pub status : Bytes
  pub modified_at : Option Time

pub record Pool : Type 0 where
  pub dbs : List (Bytes × Db)
  pub paths : List (Bytes × Bytes)
  pub conn_strs : List (Bytes × Bytes)

abbrev pub empty : Pool
empty = record { dbs = []; paths = []; conn_strs = [] }

-- the three writes of a database that was opened
abbrev pub add : DbConfig → Db → Bytes → Pool → Pool
add cfg db conn p = record {
  dbs = insert cfg.alias db p.dbs;
  paths = insert cfg.alias cfg.path p.paths;
  conn_strs = insert cfg.alias conn p.conn_strs;
}

-- one round of NewPool: a database that fails to open is only listed
abbrev pub add_opened : DbConfig → Pool → Result (Db × Bytes) → Pool
add_opened cfg p (ok (db, conn)) = add cfg db conn p
add_opened cfg p (err e) = record p { paths = insert cfg.alias cfg.path p.paths }

unfoldable pub open_all : Odbc → List DbConfig → Pool → Pool
open_all odbc [] p = p
open_all odbc (cfg ∷ cfgs) p =
    open_all odbc cfgs (add_opened cfg p (open_db odbc cfg.path cfg.driver))

-- NewPool, which never returns an error
unfoldable pub new_pool : Odbc → List DbConfig → Pool
new_pool odbc cfgs = open_all odbc cfgs empty

abbrev or_empty : Option Bytes → Bytes
or_empty none = []
or_empty (some s) = s

unfoldable pub conn_str_for : Pool → Bytes → Bytes
conn_str_for p alias = or_empty (lookup alias p.conn_strs)

abbrev pub found_db : Bytes → Option Db → Result Db
found_db alias none = err (unknown_alias alias)
found_db alias (some db) = ok db

unfoldable pub get : Pool → Bytes → Result Db
get p alias = found_db alias (lookup alias p.dbs)

unfoldable pub aliases : Pool → List Bytes
aliases p = keys p.paths

-- the status of one database, and the error text of a failed ping
abbrev pub status : (Db → Option Bytes) → Option Db → Bytes
status ping none = codes "error: failed to open"
status ping (some db) = elim (ping db) [ none ↦ codes "ok" | some text ↦ codes "error: " ++ text ]

-- Databases, over Ping by its error text and os.Stat by the modification time
unfoldable pub databases : (Db → Option Bytes) → (Bytes → Option Time) → Pool → List DbInfo
databases ping stat p =
    map
      (λ entry. record {
        alias = entry.0;
        path = entry.1;
        status = status ping (lookup entry.0 p.dbs);
        modified_at = stat entry.1;
      })
      p.paths

unfoldable pub ping_all : (Db → Option Bytes) → Pool → List (Bytes × Option Bytes)
ping_all ping p = map (λ entry. (entry.0, ping entry.1)) p.dbs

-- Close, with the databases that it closes
unfoldable pub close : Pool → Pool × List Db
close p = (record p { dbs = [] }, map (λ entry. entry.1) p.dbs)

abbrev pub registered : DbConfig → Pool → Result (Db × Bytes) → Result (Unit {0}) × Pool
registered cfg p (ok (db, conn)) = (ok tt, add cfg db conn p)
registered cfg p (err e) = (err (Error.wrap (open_database cfg.alias cfg.path) e), p)

-- Register
unfoldable pub register : Odbc → DbConfig → Pool → Result (Unit {0}) × Pool
register odbc cfg p =
    if is_some (lookup cfg.alias p.dbs)
    then (ok tt, p)
    else registered cfg p (open_db odbc cfg.path cfg.driver)
