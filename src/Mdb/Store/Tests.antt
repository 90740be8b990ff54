-- ===== src/Mdb/Store/Tests.antt =====
-- Instances of the theorems on internal/mdb/store.go.
use mdbapi.Base.{true, false, [], ◌∷◌}
use mdbapi.Base.Int.{pos}
use mdbapi.Base.Assoc.{lookup}
use mdbapi.Strings.{codes, bytes_eq}
use mdbapi.Mdb.Errors.{err, external}
use mdbapi.Mdb.Schema.{Db}
use mdbapi.Mdb.Query.{QueryOpts}
use mdbapi.Mdb.Driver.{Odbc}
use mdbapi.Mdb.Pool
use mdbapi.Mdb.Pool.{DbConfig}
use mdbapi.Mdb.Store.{PoolStore, query_table}
use mdbapi.Mdb.Store.Laws.{IsCoherent, query_table-IsCoherent}

abbrev blank_db : Db
blank_db = record { answer = λ sent stmt. err (external (codes "no such table")) }

abbrev store : PoolStore
store = record {
  pool = record {
    dbs = (codes "shop", blank_db) ∷ [];
    paths = (codes "shop", codes "s.mdb") ∷ [];
    conn_strs = (codes "shop", codes "DBQ=s.mdb") ∷ [];
  };
  caches = [];
  sent = [];
}

abbrev opts : QueryOpts
opts = record {
  filters = (codes "id", codes "7") ∷ [];
  limit = pos 2;
  offset = pos 1;
  sort_by = [];
  sort_desc = false;
  trim_whitespace = true;
}

store-IsCoherent : IsCoherent store
unfolding lookup
store-IsCoherent = record { at = λ a c h. absurd (cc) }

query_table-IsCoherent_example :
    IsCoherent (query_table (codes "shop") (codes "t") opts (pos 9) store).1
    × ((odbc : Odbc) (cfg : DbConfig)
        → IsCoherent (record store { pool = (Pool.register odbc cfg store.pool).1 }))
query_table-IsCoherent_example =
    query_table-IsCoherent (codes "shop") (codes "t") opts (pos 9) store store-IsCoherent
