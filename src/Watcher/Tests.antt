-- ===== src/Watcher/Tests.antt =====
-- Runs of internal/watcher/watcher.go on a pool and one new file, and instances of the theorems.
use mdbapi.Base.{◌≡◌, refl, true, none, some, List, [], ◌∷◌, arith, All}
use mdbapi.Base.Assoc.{lookup, insert}
use mdbapi.Base.Int.{pos, ◌+ℤ◌}
use mdbapi.Config.{DatabaseConfig}
use mdbapi.Watcher.Backoff.{backoff}
use mdbapi.Strings.{codes, bytes_eq, running_strings}
use mdbapi.Mdb.Errors.{ok, err, external, unknown_alias}
use mdbapi.Mdb.Schema.{Db}
use mdbapi.Mdb.Driver.{
  Odbc, keep, mdb_drivers, ordered, installed_access_drivers, open_db_with_driver, open_db,
}
use mdbapi.Mdb.Pool
use mdbapi.Mdb.Pool.{Pool, DbConfig, empty, aliases, open_all, new_pool, register}
use mdbapi.Mdb.Pool.Laws.{pool-IsConsistent}
use mdbapi.Config.Glob.{
  FilePath, dotted, ext, safe_parts, glob_base, rune_rest, safe_runes, alias_from_path,
  path_matches_glob, walked, match_glob,
}
use mdbapi.Watcher.{
  glob_entries, GlobEntry, is_access_file, try_globs, try_register, try_all, poll_globs, poll,
}
use mdbapi.Watcher.Debounce.{
  Loop, start, flush, on_event, Collected, Run, begin, wait, collect, quiet,
}
use mdbapi.Watcher.Debounce.Latency.{IsPrompt, Run-IsPrompt}
use mdbapi.Watcher.Registrars.{pool_registrar, pool_laws}
use mdbapi.Watcher.Racing.{
  candidate, look, act, Shared, Steps, begin, poller_looks, poller_acts, notifier_looks,
  notifier_acts,
}
use mdbapi.Watcher.Racing.Distinct.{IsOrderly, Steps-IsOrderly}
use mdbapi.Watcher.Running.{
  Fsnotify, watched, new, Event, tick, flushed, done, on_tick, on_flush, run,
}
use mdbapi.Watcher.Running.Lost.{get-run_lost}
use mdbapi.Watcher.Running.Growing.{Runs, run-new}

-- everything that a poll computes with
unfoldable running_poll : Unit {0}
unfolding running_strings lookup insert keep mdb_drivers ordered installed_access_drivers
    open_db_with_driver open_db aliases open_all new_pool register dotted ext safe_parts glob_base
    rune_rest safe_runes alias_from_path path_matches_glob walked match_glob is_access_file
    try_globs try_register try_all poll_globs poll
running_poll = tt

abbrev blank_db : Db
blank_db = record { answer = λ sent stmt. err (external (codes "no such table")) }

abbrev opens : Odbc
opens = record { open_conn = λ conn. ok blank_db; ping = λ db. none; registry = none }

abbrev broken : Odbc
broken = record {
  open_conn = λ conn. err (external (codes "locked"));
  ping = λ db. none;
  registry = none;
}

abbrev paths : FilePath
paths = record {
  clean = λ p. p;
  volume_name = λ p. codes "C:";
  base = λ p. codes "*.mdb";
  dir = λ p. codes "C:\\d";
  abs = λ p. p;
  rel = λ base p. ok (codes "Orders.MDB");
  matches = λ pattern p. some true;
  glob = λ p. ok (codes "C:\\d\\Orders.MDB" ∷ []);
  walk = λ base. [];
  bad_pattern = external (codes "syntax error in pattern");
}

abbrev globs : List GlobEntry
globs = record { pattern = codes "C:\\d\\*.mdb"; base = codes "C:\\d" } ∷ []

found_one : (poll (pool_registrar opens) paths globs empty).0 ≡ 1
unfolding running_poll
found_one = refl

found_none :
    (poll (pool_registrar opens) paths globs (poll (pool_registrar opens) paths globs empty).1).0
    ≡ 0
unfolding running_poll
found_none = refl

-- a file that is created twice, with a flush in between
abbrev once_seen : Loop
once_seen = on_event (λ p. p) 7 true (codes "a.mdb") start

abbrev seen_again : Loop
seen_again = on_event (λ p. p) 500000007 true (codes "a.mdb") (flush 500000007 once_seen)

abbrev two_events : List Collected
two_events =
    record { at = 500000007; path = codes "a.mdb"; earlier = 1 }
    ∷ record { at = 7; path = codes "a.mdb"; earlier = 0 }
    ∷ []

created_twice : Run (λ p. p) two_events 500000007 seen_again
unfolding running_poll on_event flush
created_twice =
    collect (codes "a.mdb")
      (quiet
        (wait 500000007 (collect (codes "a.mdb") (begin 7) refl refl) refl (omega arith)
          (omega arith) (omega arith))
        refl refl)
      refl refl

Run-IsPrompt_example : All (IsPrompt 500000007 seen_again) two_events
Run-IsPrompt_example = Run-IsPrompt (λ p. p) two_events 500000007 seen_again created_twice

-- both goroutines see the same file before either of them registers it
abbrev idle : Shared Pool
idle = record { registry = new_pool opens []; poller = none; notifier = none }

abbrev seen : Shared Pool
seen = record idle {
  poller = look (pool_registrar opens) paths globs (codes "C:\\d\\Orders.MDB") idle.registry;
}

abbrev seen_twice : Shared Pool
seen_twice = record seen {
  notifier = look (pool_registrar opens) paths globs (codes "C:\\d\\Orders.MDB") seen.registry;
}

abbrev once : Shared Pool
once = record seen_twice {
  registry = (act (pool_registrar opens) paths seen_twice.poller seen_twice.registry).1;
  poller = none;
}

abbrev twice : Shared Pool
twice = record once {
  registry = (act (pool_registrar opens) paths once.notifier once.registry).1;
  notifier = none;
}

raced : Steps (pool_registrar opens) paths globs idle twice
raced = notifier_acts (
    poller_acts (
      notifier_looks (codes "C:\\d\\Orders.MDB")
        (poller_looks (codes "C:\\d\\Orders.MDB") begin refl) refl))

registered_once : aliases twice.registry ≡ codes "orders" ∷ []
unfolding running_poll candidate look
registered_once = refl

Steps-IsOrderly_example : IsOrderly (pool_registrar opens) (pool_laws opens) paths twice
unfolding aliases new_pool open_all
Steps-IsOrderly_example =
    Steps-IsOrderly (pool_registrar opens) (pool_laws opens) paths globs idle twice
      (record { good = (pool-IsConsistent opens []).0; distinct = tt; poller = tt; notifier = tt })
      raced

abbrev entries : List DatabaseConfig
entries = record { alias = []; path = []; driver = []; glob = codes "C:\\d\\*.mdb" } ∷ []

-- a poll finds the file; by the next one another file has come, but for the events
abbrev later : FilePath
later = record paths {
  rel = λ base p. ok (codes "Stock.MDB");
  glob = λ p. ok (codes "C:\\d\\Stock.MDB" ∷ []);
}

abbrev notify : Fsnotify
notify = record { new_watcher = true; add = λ dir. true }

abbrev history : List Event
history =
    tick paths
    ∷ flushed later (codes "C:\\d\\Stock.MDB" ∷ [])
    ∷ tick later
    ∷ done later []
    ∷ tick paths
    ∷ []

-- the second poll finds what the event has registered, and the interval doubles
both_found :
    aliases
      (run (pool_registrar opens) (new paths notify entries (pos 30)) history (new_pool opens [])).1
    ≡ codes "orders" ∷ codes "stock" ∷ []
unfolding running_poll glob_entries watched new on_tick on_flush run backoff ◌+ℤ◌
both_found = refl

doubled :
    (run
      (pool_registrar opens)
      (new paths notify entries (pos 30))
      history
      (new_pool opens [])).0.curr_poll_ivl
    ≡ pos 60
unfolding running_poll glob_entries watched new on_tick on_flush run backoff ◌+ℤ◌
doubled = refl

run-new_example :
    Runs
      (pool_registrar opens)
      (pool_laws opens)
      30
      (new_pool opens [])
      (run (pool_registrar opens) (new paths notify entries (pos 30)) history (new_pool opens []))
run-new_example =
    run-new (pool_registrar opens) (pool_laws opens) paths notify entries 30 history
      (new_pool opens []) (omega arith) (pool-IsConsistent opens []).0

-- the database is locked at the start, and opens later on
abbrev locked : List DbConfig
locked = record { alias = codes "orders"; path = codes "C:\\d\\Orders.MDB"; driver = [] } ∷ []

get-run_lost_example :
    Pool.get
      (run
        (pool_registrar opens)
        (new paths notify entries (pos 30))
        history
        (new_pool broken locked)).1
      (codes "orders")
    ≡ err (unknown_alias (codes "orders"))
unfolding running_poll
get-run_lost_example =
    get-run_lost opens (codes "orders") (new paths notify entries (pos 30)) history
      (new_pool broken locked) (record { listed = refl; closed = refl })
