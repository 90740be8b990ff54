-- ===== src/Mdb/Store/Laws.antt =====
-- The store of internal/mdb/store.go keeps its column caches on the pool's connections.
use mdbapi.Base.{◌≡◌, refl, ap, ◌∙◌, Bool, none, some, List, arith, Option-cases, inl, inr}
use mdbapi.Base.Int.{ℤ}
use mdbapi.Base.Assoc.{lookup, insert, lookup-insert}
use mdbapi.Strings.{Bytes, str_eq_iff, bytes_eq}
use mdbapi.Mdb.Errors.{Result, ok, err, unknown_alias}
use mdbapi.Mdb.Types.{Value}
use mdbapi.Mdb.Schema.{Db, ColumnCache, new_column_cache, Session}
use mdbapi.Mdb.Query.{QueryOpts}
use mdbapi.Mdb.Query.Columns.{query_table_grows}
use mdbapi.Mdb.Pool
use mdbapi.Mdb.Pool.{Pool, DbConfig, found_db}
use mdbapi.Mdb.Pool.Laws.{register_keeps}
use mdbapi.Mdb.Driver.{Odbc}
use mdbapi.Mdb.Store.{PoolStore, list_tables, cache_or_new, query_on, query_table, execute_sql}

-- Every column cache is on the connection that the pool has for its alias.
pub record IsCoherent (s : PoolStore) : Type 0 where
  pub at : (a : Bytes) (c : ColumnCache) → lookup a s.caches ≡ some c → Pool.get s.pool a ≡ ok c.db

cache_on :
    (s : PoolStore) (alias : Bytes) (db : Db)
    → IsCoherent s
    → Pool.get s.pool alias ≡ ok db
    → (cache_or_new db (lookup alias s.caches)).db ≡ db
cache_on s alias db v h = elim (Option-cases (lookup alias s.caches)) [
  | inl e ↦ rw e (unfold new_column_cache in refl)
  | inr (c, e) ↦ rw e (cc (h, v.at alias c e))
]

-- a cache written back for an alias, on the connection of that alias
insert-IsCoherent :
    (s : PoolStore) (alias : Bytes) (db : Db) (kept : ColumnCache)
    → IsCoherent s
    → Pool.get s.pool alias ≡ ok db
    → kept.db ≡ db
    → (a : Bytes) (c : ColumnCache) → lookup a (insert alias kept s.caches) ≡ some c
    → Pool.get s.pool a ≡ ok c.db
insert-IsCoherent s alias db kept v h same a c e = ground (
  arith,
  v.at a c,
  lookup-insert alias a kept s.caches,
  str_eq_iff alias a,
  ap (λ (k : Bytes). Pool.get s.pool k) {x = alias} {y = a},
)

query_on-IsCoherent :
    (alias table : Bytes) (opts : QueryOpts) (m : ℤ) (r : Result Db) (s : PoolStore)
    → Pool.get s.pool alias ≡ r
    → IsCoherent s
    → IsCoherent (query_on alias table opts m r s).1
query_on-IsCoherent alias table opts m (err e) s h v = v
query_on-IsCoherent alias table opts m (ok db) s h v =
    let c = cache_or_new db (lookup alias s.caches) in
    let start : Session = record { columns = c; sent = s.sent } in
    let grown = (query_table_grows db table opts m start).grows in
    record { at = insert-IsCoherent s alias db _ v h (grown.same_db ∙ cache_on s alias db v h) }

-- A query, failing or not, keeps the caches on the pool's connections, and so does a registration
-- while the service runs.
pub query_table-IsCoherent :
    (alias table : Bytes) (opts : QueryOpts) (m : ℤ) (s : PoolStore)
    → IsCoherent s
    → IsCoherent (query_table alias table opts m s).1
      × ((odbc : Odbc) (cfg : DbConfig)
          → IsCoherent (record s { pool = (Pool.register odbc cfg s.pool).1 }))
query_table-IsCoherent alias table opts m s v = (
  unfold query_table in query_on-IsCoherent alias table opts m (Pool.get s.pool alias) s refl v,
  λ odbc cfg. record { at = λ a c h. (register_keeps odbc cfg s.pool).0 a c.db (v.at a c h) },
)

-- For an alias that the pool does not have, the three operations of the store return
-- ErrUnknownAlias; nothing is sent and nothing changes.
pub unknown_alias_err :
    (catalog : Bytes → Result (List Bytes)) (alias table query : Bytes) (opts : QueryOpts)
    (params : List Value) (m : ℤ) (trim : Bool) (s : PoolStore)
    → lookup alias s.pool.dbs ≡ none
    → lookup alias s.pool.conn_strs ≡ none
    → (list_tables catalog alias s ≡ err (unknown_alias alias))
      × (query_table alias table opts m s ≡ (err (unknown_alias alias), s))
      × (execute_sql alias query params m trim s ≡ (err (unknown_alias alias), s))
unfolding list_tables query_table execute_sql Pool.get Pool.conn_str_for
unknown_alias_err catalog alias table query opts params m trim s h k = (rw k, rw h, rw h)
