-- ===== src/Watcher/Running/Growing.antt =====
-- What the poll loop of internal/watcher/watcher.go keeps, from `New` on.
use mdbapi.Base.{Bool-cases, inl, inr, is_some, ℕ, ◌+◌, ◌≤◌, ◌≡◌, refl, List, [], ◌∷◌, arith}
use mdbapi.Base.Int.{pos}
use mdbapi.Strings.{Bytes}
use mdbapi.Config.{DatabaseConfig}
use mdbapi.Config.Glob.{FilePath}
use mdbapi.Watcher.{Registrar, RegistrarLaws, poll, try_all}
use mdbapi.Watcher.Adding.{Grows, Grows-none, Grows-trans, try_all-Polled, poll-Grows}
use mdbapi.Watcher.Backoff.Interval.{limit, IsInterval, backoff-IsInterval}
use mdbapi.Watcher.Running.{
  Fsnotify, Watcher, new, Event, tick, flushed, done, on_tick, on_flush, run,
}

-- the interval of a watcher that was made for an interval `b`
abbrev pub IsPaced : ℕ → Watcher → Type 0
IsPaced b w = (w.base_poll_ivl ≡ pos b) × IsInterval b w.curr_poll_ivl

module _ {ℓ} {S : Type ℓ} (reg : Registrar S) (laws : RegistrarLaws reg) where
  -- the registrar has grown, and the interval is in its bounds
  abbrev pub Runs : ℕ → S → Watcher × S → Type 0
  Runs b s (w, s') = IsPaced b w × ((n : ℕ) × Grows reg laws s n s')

  on_tick-IsPaced :
      (b : ℕ) (fp : FilePath) (w : Watcher) (s : S) → IsPaced b w → IsPaced b (on_tick reg fp w s).0
  unfolding on_tick
  on_tick-IsPaced b fp w s (base, (n, current, low, high)) =
      (base, rw (base, current) (backoff-IsInterval b n (poll reg fp w.globs s).0 low high))

  on_flush-Grows :
      (fp : FilePath) (w : Watcher) (paths : List Bytes) (s : S)
      → laws.IsGood s
      → (n : ℕ) × Grows reg laws s n (on_flush reg fp w paths s)
  unfolding on_flush
  on_flush-Grows fp w paths s v = elim (Bool-cases (is_some w.fsw)) [
    | inl notified ↦
        rw notified
          ((try_all reg fp w.globs paths s).0, try_all-Polled reg laws fp w.globs paths s v)
    | inr polled ↦ rw polled (0, Grows-none reg laws s v)
  ]

  run-Runs :
      (b : ℕ) (w : Watcher) (events : List Event) (s : S)
      → IsPaced b w
      → laws.IsGood s
      → Runs b s (run reg w events s)
  unfolding run on_tick
  run-Runs b w [] s p v = (p, (0, Grows-none reg laws s v))
  run-Runs b w (done fp paths ∷ events) s p v = (p, on_flush-Grows fp w paths s v)
  run-Runs b w (flushed fp paths ∷ events) s p v =
      let (m, first) = on_flush-Grows fp w paths s v in
      let (paced, (n, more)) = run-Runs b w events (on_flush reg fp w paths s) p first.good in
      (paced, (m + n, Grows-trans reg laws first more))
  run-Runs b w (tick fp ∷ events) s p v =
      let first = poll-Grows reg laws fp w.globs s v in
      let (paced, (n, more)) =
        run-Runs b (on_tick reg fp w s).0 events (on_tick reg fp w s).1 (on_tick-IsPaced b fp w s p)
          first.good in
      (paced, ((poll reg fp w.globs s).0 + n, Grows-trans reg laws first more))

  -- For every sequence of polls and of flushes of file events, with a file system that changes in
  -- between as it likes, with fsnotify or without: the list of aliases never shrinks, no two aliases
  -- come to differ in case only, and the interval stays between the configured one and five minutes,
  -- if the configured one is no more and the registrar keeps its laws. Calls of tryRegister do not
  -- overlap.
  pub run-new :
      (fp : FilePath) (fs : Fsnotify) (globs : List DatabaseConfig) (b : ℕ) (events : List Event)
      (s : S)
      → b ≤ limit
      → laws.IsGood s
      → Runs b s (run reg (new fp fs globs (pos b)) events s)
  unfolding new
  run-new fp fs globs b events s h v =
      run-Runs b (new fp fs globs (pos b)) events s (refl, (b, refl, omega arith, h)) v
