-- ===== src/Updater/Release/Repeating.antt =====
-- What `checkRelease` of internal/updater/updater.go leaves behind, and what the loop of `Start`
-- does after an update.
use mdbapi.Base.{
  Bool, ◌≡◌, ◌⊎◌, ◌∙◌, refl, ap, true, false, Option, none, some, List, [], ◌∷◌, inl, inr,
  Bool-cases,
}
use mdbapi.Strings.{Bytes, codes, str_eq}
use mdbapi.Updater.Swap.{Disk, remove_old}
use mdbapi.Updater.Develop.{Signal, State, close_signal}
use mdbapi.Updater.Release.{
  applied, Source, newer, detected, check_release, Settings, check, Event, tick, done, loop, start,
}

-- a newer release was found and put in place
abbrev pub IsUpgrade : Source → Bytes → State → State → Type 0
IsUpgrade src current s s' =
    (latest : Bytes) × (disk : Disk) × (src.detect_latest ≡ some (some latest))
    × (src.less_or_equal latest current ≡ false)
    × (src.update_to latest s.disk ≡ (true, disk))
    × (s'.disk ≡ remove_old src.remove_fails disk)
    × (s'.signal ≡ close_signal s.signal)

-- a newer release was found, and what go-selfupdate left when it failed to put it in place
abbrev pub IsFailure : Source → Bytes → State → State → Type 0
IsFailure src current s s' =
    (latest : Bytes) × (disk : Disk) × (src.detect_latest ≡ some (some latest))
    × (src.less_or_equal latest current ≡ false)
    × (src.update_to latest s.disk ≡ (false, disk))
    × (s' ≡ record s { disk = disk })

abbrev pub IsReleaseCheck : Source → Bytes → State → State → Type 0
IsReleaseCheck src current s s' =
    (s' ≡ s) ⊎ (IsFailure src current s s' ⊎ IsUpgrade src current s s')

applied-IsReleaseCheck :
    (src : Source) (current latest : Bytes) (s : State) (r : Bool × Disk)
    → src.detect_latest ≡ some (some latest)
    → src.less_or_equal latest current ≡ false
    → src.update_to latest s.disk ≡ r
    → IsReleaseCheck src current s (applied src s r)
applied-IsReleaseCheck src current latest s (false, disk) found higher e =
    inr (inl (latest, disk, found, higher, e, refl))
applied-IsReleaseCheck src current latest s (true, disk) found higher e =
    inr (inr (latest, disk, found, higher, e, refl, refl))

newer-IsReleaseCheck :
    (src : Source) (current latest : Bytes) (s : State)
    → src.detect_latest ≡ some (some latest)
    → src.less_or_equal latest current ≡ false
    → IsReleaseCheck src current s (newer src latest s)
newer-IsReleaseCheck src current latest s found higher = elim (Bool-cases src.executable_path) [
  | inr no_path ↦ inl (rw no_path)
  | inl path ↦
      rw path (
        applied-IsReleaseCheck src current latest s (src.update_to latest s.disk) found higher refl)
]

detected-IsReleaseCheck :
    (src : Source) (current : Bytes) (s : State) (o : Option (Option Bytes))
    → src.detect_latest ≡ o
    → IsReleaseCheck src current s (detected src current s o)
detected-IsReleaseCheck src current s none e = inl refl
detected-IsReleaseCheck src current s (some none) e = inl refl
detected-IsReleaseCheck src current s (some (some latest)) e =
    elim (Bool-cases (src.less_or_equal latest current)) [
      | inl old ↦ inl (rw old)
      | inr higher ↦ rw higher (newer-IsReleaseCheck src current latest s e higher)
    ]

-- A check of the release channel changes nothing; or finds a release that is newer than the version
-- that runs and puts it in place, and signals the restart; or fails to put it in place, and then the
-- disk is as go-selfupdate left it and no restart is signalled. So there is no downgrade, and no
-- restart without an update.
pub check_release-IsUpgrade :
    (src : Source) (current : Bytes) (s : State)
    → IsReleaseCheck src current s (check_release src current s)
unfolding check_release
check_release-IsUpgrade src current s = elim (Bool-cases src.new_source) [
  | inr no_source ↦ inl (rw no_source)
  | inl source ↦ elim (Bool-cases src.new_updater) [
    | inr no_updater ↦ inl (rw (source, no_updater))
    | inl updater ↦
        rw (source, updater) (detected-IsReleaseCheck src current s src.detect_latest refl)
  ]
]

-- the source has a release that is newer than the version that runs, and it can be put in place
pub record Offers (src : Source) (current latest : Bytes) : Type 0 where
  pub source : src.new_source ≡ true
  pub updater : src.new_updater ≡ true
  pub found : src.detect_latest ≡ some (some latest)
  pub higher : src.less_or_equal latest current ≡ false
  pub path : src.executable_path ≡ true
  pub puts : (d : Disk) → (d' : Disk) × (src.update_to latest d ≡ (true, d'))

offered_signal :
    (src : Source) (current latest : Bytes) (s : State)
    → Offers src current latest
    → (check_release src current s).signal ≡ close_signal s.signal
unfolding check_release
offered_signal src current latest s o =
    let (d, put) = o.puts s.disk in rw (o.source, o.updater, o.found, o.higher, o.path, put)

module _ (cfg : Settings) (latest : Bytes) (release : str_eq cfg.channel (codes "develop") ≡ false)
    (offers : Offers cfg.source cfg.current_ver latest) where
  check_signal : (s : State) → (check cfg s).signal ≡ close_signal s.signal
  unfolding check
  check_signal s = rw release (offered_signal cfg.source cfg.current_ver latest s offers)

  loop_panicked :
      (events : List Event) (s : State)
      → s.signal ≡ Signal.panicked
      → (loop cfg events s).signal ≡ Signal.panicked
  unfolding loop
  loop_panicked [] s h = h
  loop_panicked (done ∷ events) s h = h
  loop_panicked (tick ∷ events) s h =
      loop_panicked events (check cfg s) (check_signal s ∙ ap close_signal h)

  start_twice :
      (events : List Event) (s : State)
      → s.signal ≡ Signal.waiting
      → (start cfg (tick ∷ events) s).signal ≡ Signal.panicked
  unfolding start loop
  start_twice events s h =
      let once : (check cfg s).signal ≡ Signal.closed = check_signal s ∙ ap close_signal h in
      loop_panicked events (check cfg (check cfg s))
        (check_signal (check cfg s) ∙ ap close_signal once)

-- On the release channel, where a newer release is found and can be put in place each time, the
-- first check signals the restart and the next tick closes the channel again, which panics: only
-- the end of the process in between prevents that.
pub start_applies_twice :
    (cfg : Settings) (latest : Bytes) (events : List Event) (s : State)
    → str_eq cfg.channel (codes "develop") ≡ false
    → Offers cfg.source cfg.current_ver latest
    → s.signal ≡ Signal.waiting
    → ((start cfg [] s).signal ≡ Signal.closed)
      × ((start cfg (tick ∷ events) s).signal ≡ Signal.panicked)
unfolding start loop
start_applies_twice cfg latest events s release offers h = (
  check_signal cfg latest release offers s ∙ ap close_signal h,
  start_twice cfg latest release offers events s h,
)
