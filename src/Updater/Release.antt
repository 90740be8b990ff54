-- ===== src/Updater/Release.antt =====
-- `checkRelease`, `check` and `Start` of internal/updater/updater.go. Package go-selfupdate is a
-- parameter.
pub mod Repeating
use mdbapi.Base.{Bool, true, false, Option, none, some, List, [], ◌∷◌, if◌then◌else◌}
use mdbapi.Strings.{Bytes, codes, str_eq}
use mdbapi.Updater.Swap.{Disk, remove_old}
use mdbapi.Updater.Develop.{World, Updater, State, close_signal, check_develop}

-- go-selfupdate: `none` and false are errors. A release is known by its version.
pub record Source : Type 0 where
  pub new_source : Bool
  pub new_updater : Bool
  -- DetectLatest; `some none` is that no release was found
  pub detect_latest : Option (Option Bytes)
  -- LessOrEqual of a release and the version that runs
  pub less_or_equal : Bytes → Bytes → Bool
  pub executable_path : Bool
  -- UpdateTo, on the disk: whether it succeeds, and what it leaves, also when it fails
  pub update_to : Bytes → Disk → Bool × Disk
  pub remove_fails : Bool

-- behind an update
abbrev pub applied : Source → State → Bool × Disk → State
applied src s (false, disk) = record s { disk = disk }
applied src s (true, disk) = record s {
  disk = remove_old src.remove_fails disk;
  signal = close_signal s.signal;
}

abbrev pub newer : Source → Bytes → State → State
newer src latest s = if src.executable_path then applied src s (src.update_to latest s.disk) else s

abbrev pub detected : Source → Bytes → State → Option (Option Bytes) → State
detected src current s none = s
detected src current s (some none) = s
detected src current s (some (some latest)) =
    let update = newer src latest s in if src.less_or_equal latest current then s else update

-- checkRelease
unfoldable pub check_release : Source → Bytes → State → State
check_release src current s =
    let checked = detected src current s src.detect_latest in
    if src.new_source then (if src.new_updater then checked else s) else s

-- what both channels work with, and the settings
pub record Settings : Type 0 where
  pub channel : Bytes
  pub current_ver : Bytes
  pub updater : Updater
  pub source : Source
  pub world : World

-- check
unfoldable pub check : Settings → State → State
check cfg s =
    if str_eq cfg.channel (codes "develop")
    then check_develop cfg.world cfg.updater s
    else check_release cfg.source cfg.current_ver s

-- what the loop waits for
pub data Event : Type 0 where
  tick : Event
  done : Event

-- the loop
unfoldable pub loop : Settings → List Event → State → State
loop cfg [] s = s
loop cfg (done ∷ events) s = s
loop cfg (tick ∷ events) s = loop cfg events (check cfg s)

-- Start: one check at once, then one at each tick
unfoldable pub start : Settings → List Event → State → State
start cfg events s = loop cfg events (check cfg s)
