-- ===== src/Integration/Database/Counting.antt =====
-- How the checks of cmd/integration/main.go are counted.
use mdbapi.Base.{
  ℕ, ◌+◌, ◌*◌, ◌≤◌, ◌<◌, ◌≡◌, ◌∙◌, true, false, Option, none, some, List, [], ◌∷◌, arith, length,
  Bool-cases, inl, inr,
}
use mdbapi.Base.Assoc.{lookup}
use mdbapi.Strings.{Bytes, bytes_eq}
use mdbapi.Mdb.Errors.{Result, ok, err}
use mdbapi.Mdb.Pool.{DbConfig, Pool}
use mdbapi.Config.Expand.{after}
use mdbapi.Integration.Client.{
  DbInfo, Runner, Client, asked, noted, pass, fail, Request, check_health, check_databases, Seen,
  seen_one, see_all, concluded, databases_seen, by_alias, is_fine,
}
use mdbapi.Integration.Database.{
  some_tables, tables_noted, check_tables_endpoint, check_table_endpoint, check_sql_select_endpoint,
  check_sql_delete_forbidden, with_columns, with_tables, get_schema_columns, known_status,
  run_database_checks, run_each, new_runner, run_checks, exit_code,
}

-- so many checks were counted, unless one failed
abbrev IsStep : ℕ → Runner → Runner → Type 0
IsStep n r r' = (r.failed ≤ r'.failed) × ((r'.failed ≡ r.failed) → r'.total ≡ r.total + n)

IsStep-trans : (n m : ℕ) (r s t : Runner) → IsStep n r s → IsStep m s t → IsStep (n + m) r t
IsStep-trans n m r s t a b = ground (arith, a.1, b.1)

fail-IsStep : (n : ℕ) (r : Runner) → IsStep n r (fail r)
unfolding fail
fail-IsStep n r = ground arith

failed-IsStep : (n : ℕ) (req : Request) (r : Runner) → IsStep n r (fail (asked req r))
unfolding fail
failed-IsStep n req r = ground arith

noted-IsStep :
    (res : Result (Unit {0})) (req : Request) (r : Runner) → IsStep 1 r (noted res (asked req r))
unfolding pass fail
noted-IsStep (ok _) req r = ground arith
noted-IsStep (err e) req r = ground arith

module _ (client : Client) (pool : Pool) where
  with_columns-IsStep :
      (db table : Bytes) (cols : Result (List Bytes)) (r : Runner)
      → IsStep 3 r (with_columns client db table cols r)
  unfolding check_table_endpoint check_sql_select_endpoint check_sql_delete_forbidden
  with_columns-IsStep db table (err e) r = fail-IsStep 3 r
  with_columns-IsStep db table (ok cols) r =
      let a = check_table_endpoint client db table cols r in
      let b = check_sql_select_endpoint client db table cols a in
      let c = check_sql_delete_forbidden client db table b in
      IsStep-trans 1 2 r a c (noted-IsStep _ _ r)
        (IsStep-trans 1 1 a b c (noted-IsStep _ _ a) (noted-IsStep _ _ b))

  with_tables-IsStep :
      (db : Bytes) (res : Result (List Bytes)) (req : Request) (r : Runner)
      → IsStep 4 r (with_tables client pool db (tables_noted (after res some_tables) (asked req r)))
  with_tables-IsStep db (err e) req r = failed-IsStep 4 req r
  with_tables-IsStep db (ok []) req r = failed-IsStep 4 req r
  with_tables-IsStep db (ok (t ∷ ts)) req r =
      IsStep-trans 1 3 r (pass (asked req r))
        (with_columns client db t (get_schema_columns pool db t) (pass (asked req r)))
        (noted-IsStep (ok tt) req r)
        (with_columns-IsStep db t (get_schema_columns pool db t) (pass (asked req r)))

  run_database_checks-IsStep :
      (db_list : List (Bytes × DbInfo)) (cfg : DbConfig) (r : Runner)
      → IsStep 4 r (run_database_checks client pool db_list cfg r)
  unfolding run_database_checks check_tables_endpoint
  run_database_checks-IsStep db_list cfg r =
      elim (Bool-cases (known_status (lookup cfg.alias db_list))) [
        | inl fine ↦ rw fine (with_tables-IsStep cfg.alias _ _ r)
        | inr bad ↦ rw bad (fail-IsStep 4 r)
      ]

  run_each-IsStep :
      (db_list : List (Bytes × DbInfo)) (cfgs : List DbConfig) (r : Runner)
      → IsStep (4 * length cfgs) r (run_each client pool db_list cfgs r)
  unfolding run_each
  run_each-IsStep db_list [] r = omega arith
  run_each-IsStep db_list (cfg ∷ cfgs) r =
      let e : 4 * length (cfg ∷ cfgs) ≡ 4 + 4 * length cfgs = omega arith in
      let r' = run_database_checks client pool db_list cfg r in
      rw e (
        IsStep-trans 4 (4 * length cfgs) r r' (run_each client pool db_list cfgs r')
          (run_database_checks-IsStep db_list cfg r) (run_each-IsStep db_list cfgs r'))

-- a status that was bad is a check that failed
abbrev Sound : Runner → Seen → Type 0
Sound r s = IsStep 0 r s.runner × ((s.bad_status ≡ true) → r.failed < s.runner.failed)

seen_one-Sound : (o : Option DbInfo) (r : Runner) (s : Seen) → Sound r s → Sound r (seen_one o s)
unfolding fail
seen_one-Sound none r s h = h
seen_one-Sound (some d) r s h = elim (Bool-cases (is_fine d)) [
  | inl fine ↦ rw fine h
  | inr bad ↦ rw bad (ground (arith, h.0.0, h.0.1))
]

see_all-Sound :
    (m : List (Bytes × DbInfo)) (cfgs : List DbConfig) (r : Runner) (s : Seen)
    → Sound r s
    → Sound r (see_all m cfgs s)
unfolding see_all
see_all-Sound m [] r s h = h
see_all-Sound m (cfg ∷ cfgs) r s h =
    see_all-Sound m cfgs r _ (seen_one-Sound (lookup cfg.alias m) r s h)

concluded-IsStep : (r : Runner) (s : Seen) → Sound r s → IsStep 1 r (concluded s)
unfolding fail pass
concluded-IsStep r s h = ground (arith, h.0.0, h.0.1, h.1)

databases_seen-IsStep :
    (cfgs : List DbConfig) (req : Request) (r : Runner) (res : Result (List DbInfo))
    → IsStep 1 r (databases_seen cfgs (asked req r) res).0
databases_seen-IsStep cfgs req r (err e) = failed-IsStep 1 req r
databases_seen-IsStep cfgs req r (ok dbs) =
    let start : Seen = record { runner = asked req r; missing = false; bad_status = false } in
    concluded-IsStep r (see_all (by_alias dbs []) cfgs start) (
      see_all-Sound (by_alias dbs []) cfgs r start
        ((omega arith, λ e. omega arith), λ e. absurd (cc)))

-- The program exits with 0 only if every check was made and none failed: the health check, the list
-- of databases, and four checks for each database. So no check can be passed over in silence, though
-- each function returns early at its first failure.
pub run_checks-exit_code :
    (client : Client) (pool : Pool) (cfgs : List DbConfig)
    → exit_code (run_checks client pool cfgs) ≡ 0
    → ((run_checks client pool cfgs).failed ≡ 0)
      × ((run_checks client pool cfgs).total ≡ 2 + 4 * length cfgs)
unfolding run_checks check_health check_databases
run_checks-exit_code client pool cfgs h =
    let r1 = check_health client new_runner in
    let r2 = (check_databases client cfgs r1).0 in
    let r3 = run_checks client pool cfgs in
    let whole : IsStep (1 + (1 + 4 * length cfgs)) new_runner r3 =
      IsStep-trans 1 (1 + 4 * length cfgs) new_runner r1 r3 (noted-IsStep _ _ new_runner) (
        IsStep-trans 1 (4 * length cfgs) r1 r2 r3 (databases_seen-IsStep cfgs _ r1 _)
          (run_each-IsStep client pool (check_databases client cfgs r1).1 cfgs r2)) in
    let none_failed : r3.failed ≡ 0 = ground (arith, h) in
    (none_failed, whole.1 none_failed ∙ omega arith)
