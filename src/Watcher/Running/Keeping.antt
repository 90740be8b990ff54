-- ===== src/Watcher/Running/Keeping.antt =====
-- A property of the registrar that a registration of an unlisted alias keeps is kept by everything
-- that the watcher of internal/watcher/watcher.go does.
use mdbapi.Base.{◌≡◌, false, List, [], ◌∷◌, any, is_some, Bool-cases, inl, inr}
use mdbapi.Strings.{Bytes, equal_fold}
use mdbapi.Mdb.Errors.{Result, ok, err}
use mdbapi.Mdb.Pool.{DbConfig}
use mdbapi.Config.Glob.{FilePath, alias_from_path, path_matches_glob, match_glob}
use mdbapi.Watcher.{
  Registrar, GlobEntry, is_access_file, answered, register_alias, try_globs, try_register, try_all,
  try_matches, poll_globs, poll,
}
use mdbapi.Watcher.Running.{Watcher, Event, tick, flushed, done, on_tick, on_flush, run}

module _ {ℓ} {S : Type ℓ} (reg : Registrar S) (P : S → Type 0)
    (keeps : (cfg : DbConfig) (s : S)
      → any (λ existing. equal_fold existing cfg.alias) (reg.aliases s) ≡ false
      → P s
      → P (reg.register cfg s).1) where
  answered-Keeps :
      (fp : FilePath) (s : S) (r : Result (Unit {0}) × S) → P r.1 → P (answered reg fp s r).1
  answered-Keeps fp s (ok u, s') h = h
  answered-Keeps fp s (err e, s') h = h

  register_alias-Keeps :
      (fp : FilePath) (path : Bytes) (r : Result Bytes) (s : S)
      → P s
      → P (register_alias reg fp path r s).1
  register_alias-Keeps fp path (err e) s h = h
  register_alias-Keeps fp path (ok alias) s h =
      let cfg : DbConfig = record { alias = alias; path = path; driver = [] } in
      elim (Bool-cases (any (λ existing. equal_fold existing alias) (reg.aliases s))) [
        | inl old ↦ rw old h
        | inr new ↦ rw new (answered-Keeps fp s (reg.register cfg s) (keeps cfg s new h))
      ]

  try_globs-Keeps :
      (fp : FilePath) (gs : List GlobEntry) (path : Bytes) (s : S)
      → P s
      → P (try_globs reg fp gs path s).1
  unfolding try_globs
  try_globs-Keeps fp [] path s h = h
  try_globs-Keeps fp (g ∷ gs) path s h = elim (Bool-cases (path_matches_glob fp g.pattern path)) [
    | inl hit ↦ rw hit (register_alias-Keeps fp path (alias_from_path fp g.base path) s h)
    | inr miss ↦ rw miss (try_globs-Keeps fp gs path s h)
  ]

  try_register-Keeps :
      (fp : FilePath) (gs : List GlobEntry) (path : Bytes) (s : S)
      → P s
      → P (try_register reg fp gs path s).1
  unfolding try_register
  try_register-Keeps fp gs path s h = elim (Bool-cases (is_access_file (fp.clean path))) [
    | inl access ↦ rw access (try_globs-Keeps fp gs (fp.clean path) s h)
    | inr other ↦ rw other h
  ]

  try_all-Keeps :
      (fp : FilePath) (gs : List GlobEntry) (paths : List Bytes) (s : S)
      → P s
      → P (try_all reg fp gs paths s).1
  unfolding try_all
  try_all-Keeps fp gs [] s h = h
  try_all-Keeps fp gs (path ∷ paths) s h =
      try_all-Keeps fp gs paths (try_register reg fp gs path s).1
        (try_register-Keeps fp gs path s h)

  try_matches-Keeps :
      (fp : FilePath) (gs : List GlobEntry) (r : Result (List Bytes)) (s : S)
      → P s
      → P (try_matches reg fp gs r s).1
  try_matches-Keeps fp gs (err e) s h = h
  try_matches-Keeps fp gs (ok paths) s h = try_all-Keeps fp gs paths s h

  poll_globs-Keeps :
      (fp : FilePath) (all gs : List GlobEntry) (s : S) → P s → P (poll_globs reg fp all gs s).1
  unfolding poll_globs
  poll_globs-Keeps fp all [] s h = h
  poll_globs-Keeps fp all (g ∷ gs) s h =
      poll_globs-Keeps fp all gs (try_matches reg fp all (match_glob fp g.pattern) s).1
        (try_matches-Keeps fp all (match_glob fp g.pattern) s h)

  on_flush-Keeps :
      (fp : FilePath) (w : Watcher) (paths : List Bytes) (s : S)
      → P s
      → P (on_flush reg fp w paths s)
  unfolding on_flush
  on_flush-Keeps fp w paths s h = elim (Bool-cases (is_some w.fsw)) [
    | inl notified ↦ rw notified (try_all-Keeps fp w.globs paths s h)
    | inr polled ↦ rw polled h
  ]

  -- Every sequence of polls and flushes keeps the property.
  pub run-Keeps : (w : Watcher) (events : List Event) (s : S) → P s → P (run reg w events s).1
  unfolding run on_tick poll
  run-Keeps w [] s h = h
  run-Keeps w (done fp paths ∷ events) s h = on_flush-Keeps fp w paths s h
  run-Keeps w (flushed fp paths ∷ events) s h =
      run-Keeps w events (on_flush reg fp w paths s) (on_flush-Keeps fp w paths s h)
  run-Keeps w (tick fp ∷ events) s h =
      run-Keeps (on_tick reg fp w s).0 events (on_tick reg fp w s).1
        (poll_globs-Keeps fp w.globs w.globs s h)
