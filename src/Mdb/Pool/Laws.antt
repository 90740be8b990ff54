-- ===== src/Mdb/Pool/Laws.antt =====
-- What registering and opening do to the pool of internal/mdb/pool.go.
use mdbapi.Base.{
  ◌≡◌, refl, inl, inr, true, none, some, List, [], ◌∷◌, arith, is_some, Option-cases, Bool-cases,
}
use mdbapi.Base.Assoc.{lookup, lookup-insert, lookup-nil}
use mdbapi.Strings.{Bytes, str_eq_iff, bytes_eq}
use mdbapi.Mdb.Errors.{Error, Result, ok, err, open_database}
use mdbapi.Mdb.Schema.{Db}
use mdbapi.Mdb.Driver.{Odbc, open_db}
use mdbapi.Mdb.Pool.{
  DbConfig, Pool, empty, add, add_opened, open_all, new_pool, get, registered, register,
}

-- Every open database is listed and has its connection string.
pub record IsConsistent (p : Pool) : Type 0 where
  pub listed : (a : Bytes) → is_some (lookup a p.dbs) ≡ true → is_some (lookup a p.paths) ≡ true
  pub connected :
      (a : Bytes) → is_some (lookup a p.dbs) ≡ true → is_some (lookup a p.conn_strs) ≡ true

add-IsConsistent :
    (cfg : DbConfig) (db : Db) (conn : Bytes) {p : Pool}
    → IsConsistent p
    → IsConsistent (add cfg db conn p)
add-IsConsistent cfg db conn {p} v = record {
  listed = λ a h. ground (
    arith,
    v.listed a,
    lookup-insert cfg.alias a db p.dbs,
    lookup-insert cfg.alias a cfg.path p.paths,
  );
  connected = λ a h. ground (
    arith,
    v.connected a,
    lookup-insert cfg.alias a db p.dbs,
    lookup-insert cfg.alias a conn p.conn_strs,
  );
}

add_opened-IsConsistent :
    (cfg : DbConfig) {p : Pool} (r : Result (Db × Bytes))
    → IsConsistent p
    → IsConsistent (add_opened cfg p r)
add_opened-IsConsistent cfg (ok (db, conn)) v = add-IsConsistent cfg db conn v
add_opened-IsConsistent cfg {p} (err e) v = record {
  listed = λ a h. ground (arith, v.listed a, lookup-insert cfg.alias a cfg.path p.paths);
  connected = v.connected;
}

open_all-IsConsistent :
    (odbc : Odbc) (cfgs : List DbConfig) {p : Pool}
    → IsConsistent p
    → IsConsistent (open_all odbc cfgs p)
unfolding open_all
open_all-IsConsistent odbc [] v = v
open_all-IsConsistent odbc (cfg ∷ cfgs) v =
    open_all-IsConsistent odbc cfgs
      (add_opened-IsConsistent cfg (open_db odbc cfg.path cfg.driver) v)

registered-IsConsistent :
    (cfg : DbConfig) {p : Pool} (r : Result (Db × Bytes))
    → IsConsistent p
    → IsConsistent (registered cfg p r).1
registered-IsConsistent cfg (ok (db, conn)) v = add-IsConsistent cfg db conn v
registered-IsConsistent cfg (err e) v = v

empty-IsConsistent : IsConsistent empty
empty-IsConsistent = record {
  listed = λ a h. absurd (ground (arith, lookup-nil {V = Db} a));
  connected = λ a h. absurd (ground (arith, lookup-nil {V = Db} a));
}

-- A new pool is consistent, whatever fails to open, and so is every pool that a registration,
-- failing or not, makes of a consistent one.
pub pool-IsConsistent :
    (odbc : Odbc) (cfgs : List DbConfig)
    → IsConsistent (new_pool odbc cfgs)
      × ((cfg : DbConfig) (p : Pool) → IsConsistent p → IsConsistent (register odbc cfg p).1)
unfolding new_pool register
pool-IsConsistent odbc cfgs = (
  open_all-IsConsistent odbc cfgs empty-IsConsistent,
  λ cfg p v. elim (Bool-cases (is_some (lookup cfg.alias p.dbs))) [
    | inl old ↦ rw old v
    | inr new ↦ rw new (registered-IsConsistent cfg (open_db odbc cfg.path cfg.driver) v)
  ],
)

-- what a registration may do to the pool
data Outcome (cfg : DbConfig) (p : Pool) (r : Result (Unit {0}) × Pool) : Type 0 where
  present : (db : Db) → lookup cfg.alias p.dbs ≡ some db → r ≡ (ok tt, p) → Outcome cfg p r
  failed :
      (e : Error)
      → lookup cfg.alias p.dbs ≡ none
      → r ≡ (err (Error.wrap (open_database cfg.alias cfg.path) e), p)
      → Outcome cfg p r
  added :
      (db : Db) (conn : Bytes)
      → lookup cfg.alias p.dbs ≡ none
      → r ≡ (ok tt, add cfg db conn p)
      → Outcome cfg p r

registered-Outcome :
    (cfg : DbConfig) (p : Pool) (r : Result (Db × Bytes))
    → lookup cfg.alias p.dbs ≡ none
    → Outcome cfg p (registered cfg p r)
registered-Outcome cfg p (ok (db, conn)) new = added db conn new refl
registered-Outcome cfg p (err e) new = failed e new refl

register-Outcome : (odbc : Odbc) (cfg : DbConfig) (p : Pool) → Outcome cfg p (register odbc cfg p)
unfolding register
register-Outcome odbc cfg p = elim (Option-cases (lookup cfg.alias p.dbs)) [
  | inl new ↦ rw new (registered-Outcome cfg p (open_db odbc cfg.path cfg.driver) new)
  | inr (db, old) ↦ rw old (present db old refl)
]

module _ (cfg : DbConfig) (p : Pool) (r : Result (Unit {0}) × Pool) where
  kept : Outcome cfg p r → (a : Bytes) (db : Db) → get p a ≡ ok db → get r.1 a ≡ ok db
  unfolding get
  kept (present d old e) a db h = rw e h
  kept (failed x new e) a db h = rw e h
  kept (added d conn new e) a db h =
      rw e (ground (arith, lookup-insert cfg.alias a d p.dbs, str_eq_iff cfg.alias a))

  reachable : Outcome cfg p r → r.0 ≡ ok tt → (db : Db) × (lookup cfg.alias r.1.dbs ≡ some db)
  reachable (present d old e) h = (d, rw e old)
  reachable (failed x new e) h = absurd (cc)
  reachable (added d conn new e) h = (
    d,
    rw e
        (ground (arith, lookup-insert cfg.alias cfg.alias d p.dbs, str_eq_iff cfg.alias cfg.alias)),
  )

  untouched : Outcome cfg p r → (x : Error) → r.0 ≡ err x → r.1 ≡ p
  untouched (present d old e) x h = absurd (cc)
  untouched (failed y new e) x h = rw e
  untouched (added d conn new e) x h = absurd (cc)

register_present :
    (odbc : Odbc) (cfg : DbConfig) (p : Pool) (db : Db)
    → lookup cfg.alias p.dbs ≡ some db
    → register odbc cfg p ≡ (ok tt, p)
unfolding register
register_present odbc cfg p db h = rw h

-- A registration never replaces a connection that the pool has, and one that fails changes nothing.
pub register_keeps :
    (odbc : Odbc) (cfg : DbConfig) (p : Pool)
    → ((a : Bytes) (db : Db) → get p a ≡ ok db → get (register odbc cfg p).1 a ≡ ok db)
      × ((x : Error) → (register odbc cfg p).0 ≡ err x → (register odbc cfg p).1 ≡ p)
register_keeps odbc cfg p =
    (kept cfg p _ (register-Outcome odbc cfg p), untouched cfg p _ (register-Outcome odbc cfg p))

-- After a registration that succeeds, the alias has a connection, and a second one of the same
-- alias is a no-op that succeeds, with whatever path, driver and system.
pub register_once :
    (odbc odbc' : Odbc) (cfg cfg' : DbConfig) (p : Pool)
    → (register odbc cfg p).0 ≡ ok tt
    → cfg'.alias ≡ cfg.alias
    → ((db : Db) × (get (register odbc cfg p).1 cfg.alias ≡ ok db))
      × (register odbc' cfg' (register odbc cfg p).1 ≡ (ok tt, (register odbc cfg p).1))
register_once odbc odbc' cfg cfg' p h same =
    let (db, there) = reachable cfg p _ (register-Outcome odbc cfg p) h in
    let p' = (register odbc cfg p).1 in
    let at : lookup cfg'.alias p'.dbs ≡ some db = rw same there in
    ((db, unfold get in rw there), register_present odbc' cfg' p' db at)
