-- ===== src/Watcher/Running.antt =====
-- `New` and `Run` of internal/watcher/watcher.go: the polls and the flushes of the file events, in the
-- order in which they come. fsnotify is a parameter, and the file system may change at any time.
pub mod Growing
pub mod Keeping
pub mod Lost
use mdbapi.Base.{ℕ, Bool, Option, none, some, List, [], ◌∷◌, if◌then◌else◌, is_some}
use mdbapi.Base.Int.{ℤ}
use mdbapi.Strings.{Bytes}
use mdbapi.Config.{DatabaseConfig}
use mdbapi.Config.Glob.{FilePath}
use mdbapi.Watcher.{Registrar, GlobEntry, glob_entries, try_all, poll}
use mdbapi.Watcher.Backoff.{backoff}

-- whether NewWatcher succeeds, and Add of a directory
pub record Fsnotify : Type 0 where
  pub new_watcher : Bool
  pub add : Bytes → Bool

-- Watcher, with the directories that fsnotify watches, if there is one
pub record Watcher : Type 0 where
  pub globs : List GlobEntry
  pub base_poll_ivl : ℤ
  pub curr_poll_ivl : ℤ
  pub fsw : Option (List Bytes)

-- the loop over the entries: a directory that cannot be watched is left to the polls
unfoldable pub watched : Fsnotify → List GlobEntry → List Bytes
watched fs [] = []
watched fs (e ∷ es) = let rest = watched fs es in if fs.add e.base then e.base ∷ rest else rest

-- New
unfoldable pub new : FilePath → Fsnotify → List DatabaseConfig → ℤ → Watcher
new fp fs globs poll_interval =
    let entries = glob_entries fp globs in
    record {
      globs = entries;
      base_poll_ivl = poll_interval;
      curr_poll_ivl = poll_interval;
      fsw = if fs.new_watcher then some (watched fs entries) else none;
    }

-- What happens while the watcher runs, each with the file system of its time: a tick of the poll
-- loop, a flush of fsnotifyLoop over its buffer, and the end of the context, where that loop may
-- flush once more.
pub data Event : Type 0 where
  tick : FilePath → Event
  flushed : FilePath → List Bytes → Event
  done : FilePath → List Bytes → Event

module _ {ℓ} {S : Type ℓ} (reg : Registrar S) where
  -- a tick: the poll, and the interval up to the next one
  unfoldable pub on_tick : FilePath → Watcher → S → Watcher × S
  on_tick fp w s =
      let (found, s') = poll reg fp w.globs s in
      (record w { curr_poll_ivl = backoff w.base_poll_ivl w.curr_poll_ivl found }, s')

  -- a flush, whose loop runs only with fsnotify
  unfoldable pub on_flush : FilePath → Watcher → List Bytes → S → S
  on_flush fp w paths s =
      let (found, s') = try_all reg fp w.globs paths s in if is_some w.fsw then s' else s

  -- the events in their order, each call of tryRegister in one piece
  unfoldable pub run : Watcher → List Event → S → Watcher × S
  run w [] s = (w, s)
  run w (tick fp ∷ events) s = let (w', s') = on_tick fp w s in run w' events s'
  run w (flushed fp paths ∷ events) s = run w events (on_flush fp w paths s)
  run w (done fp paths ∷ events) s = (w, on_flush fp w paths s)
