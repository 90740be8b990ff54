-- ===== src/Mdb/Pool/Tests.antt =====
-- Runs of internal/mdb/pool.go with one driver that opens every path but the empty one, and
-- instances of the theorems.
use mdbapi.Base.{◌≡◌, refl, none, [], ◌∷◌, List}
use mdbapi.Base.Assoc.{lookup, insert}
use mdbapi.Strings.{Bytes, codes, running_strings, bytes_eq}
use mdbapi.Mdb.Errors.{Error, ok, err, external}
use mdbapi.Mdb.Schema.{Db}
use mdbapi.Mdb.Driver.{
  Odbc, keep, mdb_drivers, ordered, installed_access_drivers, open_db_with_driver, open_db,
}
use mdbapi.Mdb.Pool.{DbConfig, open_all, new_pool, get, conn_str_for, aliases, close, register}
use mdbapi.Mdb.Pool.Abstract
use mdbapi.Mdb.Pool.Abstract.{absent}
use mdbapi.Mdb.Pool.Refining
use mdbapi.Mdb.Pool.Refining.Starting.{run-new_pool}
use mdbapi.Mdb.Pool.Laws.{register_keeps}

-- everything that a run of the pool computes with
unfoldable running_pool : Unit {0}
unfolding running_strings lookup insert keep mdb_drivers ordered installed_access_drivers
    open_db_with_driver open_db open_all new_pool get conn_str_for aliases close register
running_pool = tt

abbrev blank_db : Db
blank_db = record { answer = λ sent stmt. err (external (codes "no such table")) }

abbrev opens : Odbc
opens = record { open_conn = λ conn. ok blank_db; ping = λ db. none; registry = none }

abbrev broken : Odbc
broken = record {
  open_conn = λ conn. err (external (codes "not a database"));
  ping = λ db. none;
  registry = none;
}

abbrev shop : DbConfig
shop = record { alias = codes "shop"; path = codes "s.mdb"; driver = [] }

abbrev stock : DbConfig
stock = record { alias = codes "stock"; path = codes "t.mdb"; driver = codes "D" }

abbrev both : List DbConfig
both = shop ∷ stock ∷ []

listed_though_broken : aliases (new_pool broken both) ≡ codes "shop" ∷ codes "stock" ∷ []
unfolding running_pool
listed_though_broken = refl

register_keeps_example :
    ((a : Bytes) (db : Db)
      → get (new_pool opens both) a ≡ ok db
      → get (register broken stock (new_pool opens both)).1 a ≡ ok db)
    × ((x : Error)
        → (register broken stock (new_pool opens both)).0 ≡ err x
        → (register broken stock (new_pool opens both)).1 ≡ new_pool opens both)
register_keeps_example = register_keeps broken stock (new_pool opens both)

run-new_pool_example :
    let ops =
      Abstract.get (codes "shop")
      ∷ Abstract.close
      ∷ Abstract.register stock
      ∷ Abstract.describe (codes "shop")
      ∷ [] in
    Refining.run opens (λ db. none) (λ path. none) (new_pool opens both) ops
    ≡ Abstract.run opens (λ db. none) (λ path. none) (Abstract.start opens both (λ a. absent)) ops
run-new_pool_example =
    run-new_pool opens (λ db. none) (λ path. none) both
      (Abstract.get (codes "shop")
        ∷ Abstract.close
        ∷ Abstract.register stock
        ∷ Abstract.describe (codes "shop")
        ∷ [])
