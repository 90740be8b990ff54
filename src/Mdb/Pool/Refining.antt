-- ===== src/Mdb/Pool/Refining.antt =====
-- The pool of internal/mdb/pool.go behaves as the state for each alias of Mdb/Pool/Abstract: one
-- call, and any sequence of calls.
pub mod Starting
use mathlib.Core.Path.{ap₂}
use mdbapi.Base.{
  ◌≡◌, ◌∙◌, refl, sym, ap, Bool, true, false, Option, none, some, List, [], ◌∷◌, ◌++◌, map, arith,
  if◌then◌else◌, is_some, Bool-cases, Option-cases, inl, inr,
}
use mdbapi.Base.Assoc.{lookup, insert, lookup-insert}
use mdbapi.Strings.{Bytes, codes, str_eq, str_eq_iff, bytes_eq}
use mdbapi.Mdb.Errors.{Error, Result, ok, err, open_database}
use mdbapi.Mdb.Types.Encoding.{Time}
use mdbapi.Mdb.Schema.{Db}
use mdbapi.Mdb.Driver.{Odbc, open_db}
use mdbapi.Mdb.Pool
use mdbapi.Mdb.Pool.{
  DbConfig, DbInfo, Pool, add_opened, open_all, new_pool, databases, empty, found_db, status,
}
use mdbapi.Mdb.Pool.Abstract
use mdbapi.Mdb.Pool.Abstract.{
  Entry, absent, listed, open_at, Entries, Op, get, register, describe, close, Reply, connection,
  registered, described, closed, update,
}

-- the first database of the list with the alias
unfoldable pub find_info : Bytes → List DbInfo → Option DbInfo
find_info a [] = none
find_info a (d ∷ ds) = if str_eq d.alias a then some d else find_info a ds

module _ (odbc : Odbc) (ping : Db → Option Bytes) (stat : Bytes → Option Time) where
  -- one call of the pool
  unfoldable pub call : Pool → Op → Reply × Pool
  call p (get a) = (connection (Pool.get p a), p)
  call p (register cfg) = let (r, p') = Pool.register odbc cfg p in (registered r, p')
  call p (describe a) = (described (find_info a (databases ping stat p)), p)
  call p close = (closed, (Pool.close p).0)

  unfoldable pub run : Pool → List Op → List Reply
  run p [] = []
  run p (op ∷ ops) = let (r, p') = call p op in r ∷ run p' ops

-- what the maps hold for an alias
abbrev pub entry : Option Db → Option Bytes → Entry
entry db none = absent
entry none (some path) = listed path
entry (some db) (some path) = open_at path db

abbrev pub view : Pool → Entries
view p a = entry (lookup a p.dbs) (lookup a p.paths)

-- every connection is listed
abbrev pub IsListed : Pool → Type 0
IsListed p = (a : Bytes) → lookup a p.paths ≡ none → lookup a p.dbs ≡ none

-- the pool stands for the entries
abbrev pub Shows : Pool → Entries → Type 0
Shows p m = IsListed p × ((a : Bytes) → view p a ≡ m a)

found_db-entry :
    (a : Bytes) (o : Option Db) (q : Option Bytes)
    → (q ≡ none → o ≡ none)
    → found_db a o ≡ Abstract.connection_of a (entry o q)
found_db-entry a none none h = refl
found_db-entry a none (some path) h = refl
found_db-entry a (some db) none h = absurd (let e = h refl in cc)
found_db-entry a (some db) (some path) h = refl

get-Shows :
    (p : Pool) (m : Entries) (a : Bytes) → Shows p m → Pool.get p a ≡ Abstract.connection_of a (m a)
unfolding Pool.get
get-Shows p m a (all_listed, same) =
    found_db-entry a (lookup a p.dbs) (lookup a p.paths) (all_listed a)
    ∙ ap (Abstract.connection_of a) (same a)

pub add-Shows :
    (cfg : DbConfig) (db : Db) (conn : Bytes) (p : Pool) (m : Entries)
    → Shows p m
    → Shows (Pool.add cfg db conn p) (update cfg.alias (open_at cfg.path db) m)
add-Shows cfg db conn p m (all_listed, same) = (
  (λ a h. ground (
    arith,
    lookup-insert cfg.alias a db p.dbs,
    lookup-insert cfg.alias a cfg.path p.paths,
    all_listed a,
  )),
  λ a. elim (Bool-cases (str_eq cfg.alias a)) [
    | inl here ↦
        rw (lookup-insert cfg.alias a db p.dbs, lookup-insert cfg.alias a cfg.path p.paths, here)
    | inr other ↦
        rw (lookup-insert cfg.alias a db p.dbs, lookup-insert cfg.alias a cfg.path p.paths, other)
          (same a)
  ],
)

kept-Shows : (k : Bytes) (p : Pool) (m : Entries) → Shows p m → Shows p (update k (m k) m)
kept-Shows k p m (all_listed, same) = (
  all_listed,
  λ a. elim (Bool-cases (str_eq k a)) [
    | inl here ↦ rw (here, (str_eq_iff k a).0 here) (same a)
    | inr other ↦ rw other (same a)
  ],
)

entry-without_db :
    (o : Option Db) (q : Option Bytes) → entry none q ≡ Abstract.without_db (entry o q)
entry-without_db o none = refl
entry-without_db none (some path) = refl
entry-without_db (some db) (some path) = refl

close-Shows :
    (p : Pool) (m : Entries) → Shows p m → Shows (Pool.close p).0 (λ a. Abstract.without_db (m a))
unfolding Pool.close lookup
close-Shows p m (all_listed, same) = (
  (λ a h. refl),
  λ a. entry-without_db (lookup a p.dbs) (lookup a p.paths) ∙ ap Abstract.without_db (same a),
)

-- registration over an alias without a connection
register_at-listed :
    (cfg : DbConfig) (q : Option Bytes) (r : Result (Db × Bytes))
    → Abstract.register_at cfg (entry none q) r ≡ elim r [
      | ok opened ↦ (open_at cfg.path opened.0, ok tt)
      | err x ↦ (entry none q, err (Error.wrap (open_database cfg.alias cfg.path) x))
    ]
register_at-listed cfg none (ok opened) = refl
register_at-listed cfg none (err x) = refl
register_at-listed cfg (some path) (ok opened) = refl
register_at-listed cfg (some path) (err x) = refl

abbrev Agrees : Result (Unit {0}) × Pool → Entry × Result (Unit {0}) → Bytes → Entries → Type 0
Agrees (r, p) (e, r') k m = (r ≡ r') × Shows p (update k e m)

registered-Agrees :
    (cfg : DbConfig) (p : Pool) (m : Entries) (r : Result (Db × Bytes))
    → Shows p m
    → lookup cfg.alias p.dbs ≡ none
    → Agrees (Pool.registered cfg p r) (Abstract.register_at cfg (m cfg.alias) r) cfg.alias m
registered-Agrees cfg p m r shows fresh =
    let seen : entry none (lookup cfg.alias p.paths) ≡ m cfg.alias =
      rw fresh at (shows.1 cfg.alias) in
    rw (← seen, register_at-listed cfg (lookup cfg.alias p.paths) r) (by_result r seen)
  where
    by_result :
        (r' : Result (Db × Bytes))
        → entry none (lookup cfg.alias p.paths) ≡ m cfg.alias
        → Agrees
            (Pool.registered cfg p r')
            (elim r' [
              | ok opened ↦ (open_at cfg.path opened.0, ok tt)
              | err x ↦ (
                entry none (lookup cfg.alias p.paths),
                err (Error.wrap (open_database cfg.alias cfg.path) x),
              )
            ])
            cfg.alias
            m
    by_result (ok (db, conn)) seen = (refl, add-Shows cfg db conn p m shows)
    by_result (err x) seen = (refl, rw seen (kept-Shows cfg.alias p m shows))

open_entry :
    (o : Option Db) (q : Option Bytes) (db : Db)
    → o ≡ some db
    → (q ≡ none → o ≡ none)
    → (path : Bytes) × (entry o q ≡ open_at path db)
open_entry o none db e h = absurd (let k = h refl in cc)
open_entry o (some path) db e h = (path, rw e)

register-Agrees :
    (odbc : Odbc) (cfg : DbConfig) (p : Pool) (m : Entries)
    → Shows p m
    → Agrees
        (Pool.register odbc cfg p)
        (Abstract.register_at cfg (m cfg.alias) (open_db odbc cfg.path cfg.driver))
        cfg.alias
        m
unfolding Pool.register
register-Agrees odbc cfg p m shows = elim (Option-cases (lookup cfg.alias p.dbs)) [
  | inl fresh ↦ rw fresh (registered-Agrees cfg p m (open_db odbc cfg.path cfg.driver) shows fresh)
  | inr (db, there) ↦
      let (path, is_open) =
        open_entry (lookup cfg.alias p.dbs) (lookup cfg.alias p.paths) db there
          (shows.0 cfg.alias) in
      let seen : m cfg.alias ≡ open_at path db = sym (shows.1 cfg.alias) ∙ is_open in
      rw (there, seen) (refl, rw (← seen) (kept-Shows cfg.alias p m shows))
]

module _ (odbc : Odbc) (ping : Db → Option Bytes) (stat : Bytes → Option Time) where
  abbrev described_by : Bytes → Option Db → Option Bytes → Option DbInfo
  described_by a o none = none
  described_by a o (some path) =
      some (record { alias = a; path = path; status = status ping o; modified_at = stat path })

  find_info-databases :
      (a : Bytes) (dbs : List (Bytes × Db)) (paths : List (Bytes × Bytes))
      → find_info a (
          map
            (λ pair. record {
              alias = pair.0;
              path = pair.1;
              status = status ping (lookup pair.0 dbs);
              modified_at = stat pair.1;
            })
            paths)
        ≡ described_by a (lookup a dbs) (lookup a paths)
  unfolding find_info lookup
  find_info-databases a dbs [] = refl
  find_info-databases a dbs ((j, path) ∷ paths) = elim (Bool-cases (str_eq j a)) [
    | inl here ↦ rw (here, (str_eq_iff j a).0 here)
    | inr other ↦ rw other (find_info-databases a dbs paths)
  ]

  describe_at-entry :
      (a : Bytes) (o : Option Db) (q : Option Bytes)
      → described_by a o q ≡ Abstract.describe_at odbc ping stat a (entry o q)
  describe_at-entry a o none = refl
  describe_at-entry a none (some path) = refl
  describe_at-entry a (some db) (some path) = refl

  -- one call of the pool and one step of the entries give the same reply
  call-Shows :
      (op : Op) (p : Pool) (m : Entries)
      → Shows p m
      → ((call odbc ping stat p op).0 ≡ (Abstract.step odbc ping stat m op).0)
        × Shows (call odbc ping stat p op).1 (Abstract.step odbc ping stat m op).1
  unfolding call Abstract.step databases
  call-Shows (get a) p m shows = (ap connection (get-Shows p m a shows), shows)
  call-Shows (register cfg) p m shows =
      let (same, still) = register-Agrees odbc cfg p m shows in (ap registered same, still)
  call-Shows (describe a) p m shows = (
    ap described (
        find_info-databases a p.dbs p.paths
        ∙ describe_at-entry a (lookup a p.dbs) (lookup a p.paths)
        ∙ ap (Abstract.describe_at odbc ping stat a) (shows.1 a)),
    shows,
  )
  call-Shows close p m shows = (refl, close-Shows p m shows)

  pub run-Shows :
      (ops : List Op) (p : Pool) (m : Entries)
      → Shows p m
      → run odbc ping stat p ops ≡ Abstract.run odbc ping stat m ops
  unfolding run Abstract.run
  run-Shows [] p m shows = refl
  run-Shows (op ∷ ops) p m shows =
      let (same, still) = call-Shows op p m shows in ap₂ ◌∷◌ same (run-Shows ops _ _ still)
