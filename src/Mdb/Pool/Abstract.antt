-- ===== src/Mdb/Pool/Abstract.antt =====
-- What the pool of internal/mdb/pool.go promises: a state for each alias, without the three maps.
use mdbapi.Base.{Option, none, some, List, [], ◌∷◌, ◌++◌, if◌then◌else◌}
use mdbapi.Strings.{Bytes, codes, str_eq}
use mdbapi.Mdb.Errors.{Error, Result, ok, err, unknown_alias, open_database}
use mdbapi.Mdb.Types.Encoding.{Time}
use mdbapi.Mdb.Schema.{Db}
use mdbapi.Mdb.Driver.{Odbc, open_db}
use mdbapi.Mdb.Pool.{DbConfig, DbInfo}

-- a listed database has its path and no connection
pub data Entry : Type 0 where
  absent : Entry
  listed : Bytes → Entry
  open_at : Bytes → Db → Entry

abbrev pub Entries : Type 0
Entries = Bytes → Entry

pub data Op : Type 0 where
  get : Bytes → Op
  register : DbConfig → Op
  describe : Bytes → Op
  close : Op

pub data Reply : Type 0 where
  connection : Result Db → Reply
  registered : Result (Unit {0}) → Reply
  described : Option DbInfo → Reply
  closed : Reply

abbrev pub update : Bytes → Entry → Entries → Entries
update k e m a = if str_eq k a then e else m a

abbrev pub connection_of : Bytes → Entry → Result Db
connection_of alias (open_at path db) = ok db
connection_of alias _ = err (unknown_alias alias)

-- a connection that is there stays; a database that does not open changes nothing
abbrev pub register_at : DbConfig → Entry → Result (Db × Bytes) → Entry × Result (Unit {0})
register_at cfg (open_at path db) r = (open_at path db, ok tt)
register_at cfg e (ok (db, conn)) = (open_at cfg.path db, ok tt)
register_at cfg e (err x) = (e, err (Error.wrap (open_database cfg.alias cfg.path) x))

abbrev pub without_db : Entry → Entry
without_db (open_at path db) = listed path
without_db e = e

module _ (odbc : Odbc) (ping : Db → Option Bytes) (stat : Bytes → Option Time) where
  abbrev pub info : Bytes → Bytes → Bytes → DbInfo
  info alias path status = record {
    alias = alias;
    path = path;
    status = status;
    modified_at = stat path;
  }

  abbrev pub describe_at : Bytes → Entry → Option DbInfo
  describe_at alias absent = none
  describe_at alias (listed path) = some (info alias path (codes "error: failed to open"))
  describe_at alias (open_at path db) =
      some (
        info alias path
          (elim (ping db) [ none ↦ codes "ok" | some text ↦ codes "error: " ++ text ]))

  unfoldable pub step : Entries → Op → Reply × Entries
  step m (get a) = (connection (connection_of a (m a)), m)
  step m (register cfg) =
      let (e, r) = register_at cfg (m cfg.alias) (open_db odbc cfg.path cfg.driver) in
      (registered r, update cfg.alias e m)
  step m (describe a) = (described (describe_at a (m a)), m)
  step m close = (closed, λ a. without_db (m a))

  unfoldable pub run : Entries → List Op → List Reply
  run m [] = []
  run m (op ∷ ops) = let (r, m') = step m op in r ∷ run m' ops

-- NewPool: a database that does not open is listed, with the connection of its alias, if any
abbrev pub start_at : DbConfig → Entry → Result (Db × Bytes) → Entry
start_at cfg e (ok (db, conn)) = open_at cfg.path db
start_at cfg (open_at path db) (err x) = open_at cfg.path db
start_at cfg e (err x) = listed cfg.path

unfoldable pub start : Odbc → List DbConfig → Entries → Entries
start odbc [] m = m
start odbc (cfg ∷ cfgs) m =
    start odbc cfgs
      (update cfg.alias (start_at cfg (m cfg.alias) (open_db odbc cfg.path cfg.driver)) m)
