-- ===== src/Watcher/Registrars.antt =====
-- The pool of internal/mdb/pool.go is a registrar for internal/watcher/watcher.go.
use mdbapi.Base.{
  ◌≡◌, refl, ap, true, false, List, [], ◌∷◌, ◌++◌, any, is_some, arith, Bool-cases, inl, inr,
}
use mdbapi.Base.Assoc.{lookup, insert, keys, lookup-cons, lookup-nil}
use mdbapi.Strings.{Bytes, str_eq, str_eq_iff, bytes_eq}
use mdbapi.Mdb.Errors.{Result, ok, err}
use mdbapi.Mdb.Driver.{Odbc, open_db}
use mdbapi.Mdb.Schema.{Db}
use mdbapi.Mdb.Pool.{Pool, DbConfig, aliases, registered, register}
use mdbapi.Mdb.Pool.Laws.{IsConsistent, pool-IsConsistent, register_keeps}
use mdbapi.Watcher.{Registrar, RegistrarLaws}

abbrev pub pool_registrar : Odbc → Registrar Pool
pool_registrar odbc = record { aliases = aliases; register = register odbc }

keys-insert_new {ℓ} :
    {V : Type ℓ} (k : Bytes) (v : V) (m : List (Bytes × V))
    → any (λ a. str_eq a k) (keys m) ≡ false
    → keys (insert k v m) ≡ keys m ++ k ∷ []
unfolding insert
keys-insert_new k v [] h = refl
keys-insert_new k v ((j, w) ∷ m) h =
    let new : str_eq j k ≡ false = ground arith in
    rw new (ap (λ (l : List Bytes). j ∷ l) (keys-insert_new k v m (ground arith)))

lookup_unlisted {ℓ} :
    {V : Type ℓ} (k : Bytes) (m : List (Bytes × V))
    → any (λ a. str_eq a k) (keys m) ≡ false
    → is_some (lookup k m) ≡ false
lookup_unlisted {V = V} k [] h = ground (arith, lookup-nil {V = V} k)
lookup_unlisted k ((j, w) ∷ m) h =
    ground (arith, lookup-cons k j w m, lookup_unlisted k m (ground arith))

registered_adds :
    (cfg : DbConfig) (p : Pool) (r : Result (Db × Bytes))
    → any (λ a. str_eq a cfg.alias) (aliases p) ≡ false
    → (registered cfg p r).0 ≡ ok tt
    → aliases (registered cfg p r).1 ≡ aliases p ++ cfg.alias ∷ []
unfolding aliases
registered_adds cfg p (ok (db, conn)) new h = keys-insert_new cfg.alias cfg.path p.paths new
registered_adds cfg p (err e) new h = absurd (cc)

pub register_adds :
    (odbc : Odbc) (cfg : DbConfig) (p : Pool)
    → IsConsistent p
    → any (λ a. str_eq a cfg.alias) (aliases p) ≡ false
    → (register odbc cfg p).0 ≡ ok tt
    → aliases (register odbc cfg p).1 ≡ aliases p ++ cfg.alias ∷ []
unfolding register aliases
register_adds odbc cfg p v new = elim (Bool-cases (is_some (lookup cfg.alias p.dbs))) [
  | inl there ↦ absurd (cc (v.listed cfg.alias there, lookup_unlisted cfg.alias p.paths new))
  | inr closed ↦ rw closed (registered_adds cfg p (open_db odbc cfg.path cfg.driver) new)
]

keys-insert_old {ℓ} :
    {V : Type ℓ} (k : Bytes) (v : V) (m : List (Bytes × V))
    → any (λ a. str_eq a k) (keys m) ≡ true
    → keys (insert k v m) ≡ keys m
unfolding insert
keys-insert_old k v [] h = absurd (cc)
keys-insert_old k v ((j, w) ∷ m) h = elim (Bool-cases (str_eq j k)) [
  | inl same ↦ rw (same, (str_eq_iff j k).0 same) refl
  | inr new ↦
      rw new (ap (λ (l : List Bytes). j ∷ l) (keys-insert_old k v m (ground (arith, h, new))))
]

registered_relists :
    (cfg : DbConfig) (p : Pool) (r : Result (Db × Bytes))
    → any (λ a. str_eq a cfg.alias) (aliases p) ≡ true
    → aliases (registered cfg p r).1 ≡ aliases p
unfolding aliases
registered_relists cfg p (ok (db, conn)) h = keys-insert_old cfg.alias cfg.path p.paths h
registered_relists cfg p (err e) h = refl

pub register_relists :
    (odbc : Odbc) (cfg : DbConfig) (p : Pool)
    → any (λ a. str_eq a cfg.alias) (aliases p) ≡ true
    → aliases (register odbc cfg p).1 ≡ aliases p
unfolding register
register_relists odbc cfg p h = elim (Bool-cases (is_some (lookup cfg.alias p.dbs))) [
  | inl there ↦ rw there
  | inr closed ↦ rw closed (registered_relists cfg p (open_db odbc cfg.path cfg.driver) h)
]

-- the laws of the watcher, for consistent pools
abbrev pub pool_laws : (odbc : Odbc) → RegistrarLaws (pool_registrar odbc)
pool_laws odbc = record {
  IsGood = IsConsistent;
  keeps = λ cfg p v. (pool-IsConsistent odbc []).1 cfg p v;
  fails = λ cfg p e h. (register_keeps odbc cfg p).1 e h;
  adds = λ cfg p v new h. register_adds odbc cfg p v new h;
  relists = λ cfg p h. register_relists odbc cfg p h;
}
