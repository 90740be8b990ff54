-- ===== src/Service/Manager.antt =====
-- `Install` and `configureRecovery` of internal/winservice/service.go, on the Windows service
-- manager as a state whose calls may fail, and `SetupLogging`.
pub mod Recovery
mod Tests
use mdbapi.Base.{
  ℕ, ◌+◌, ◌-◌, ◌*◌, Bool, true, false, Option, none, some, List, [], ◌∷◌, if◌then◌else◌, is_nil,
}
use mdbapi.Base.Int.{ℤ}
use mdbapi.Strings.{Bytes}
use mdbapi.Mdb.Errors.{
  Error, Result, ok, err, wrapping, create_service, install_service, connect_scm, open_service,
  set_recovery_actions, enable_non_crash, create_log_directory,
}
use mdbapi.Config.Expand.{after}
use mdbapi.Mdb.Exec.{Exec, pure, in_context, ◌>>=◌, ◌>>◌}

-- mgr.RecoveryAction: a restart behind so many seconds
pub data Action : Type 0 where
  restart : ℕ → Action

-- the entry of the service, and the handles that are open on the manager
pub record Scm : Type 0 where
  pub installed : Bool
  pub actions : List Action
  -- the period in seconds behind which the count of failures is reset
  pub reset_period : ℕ
  pub on_non_crash : Bool
  pub managers : ℕ
  pub services : ℕ

-- the errors of the calls
pub record Faults : Type 0 where
  pub new_service : Option Error
  pub install : Option Error
  pub connect : Option Error
  pub open_entry : Option Error
  pub set_actions : Option Error
  pub set_flag : Option Error

-- a call that changes the manager, or fails and changes nothing
abbrev pub attempt : Option Error → (Scm → Scm) → Exec Scm (Unit {0})
attempt none change s = (ok tt, change s)
attempt (some e) change s = (err e, s)

-- defer
abbrev pub finally : (Scm → Scm) → Exec Scm (Unit {0}) → Exec Scm (Unit {0})
finally release m s = let (r, s') = m s in (r, release s')

abbrev pub disconnect : Scm → Scm
disconnect s = record s { managers = s.managers - 1 }

abbrev pub close_entry : Scm → Scm
close_entry s = record s { services = s.services - 1 }

abbrev pub recovery_actions : List Action
recovery_actions = restart 5 ∷ restart 5 ∷ restart 30 ∷ []

-- the calls on the open entry
unfoldable pub set_recovery : Faults → Exec Scm (Unit {0})
set_recovery f = do
  in_context set_recovery_actions
      (attempt f.set_actions (λ s. record s { actions = recovery_actions; reset_period = 60 * 60 }))
  in_context enable_non_crash (attempt f.set_flag (λ s. record s { on_non_crash = true }))

-- behind Connect
unfoldable pub on_manager : Faults → Bytes → Exec Scm (Unit {0})
on_manager f name = do
  in_context (open_service name)
      (attempt f.open_entry (λ s. record s { services = s.services + 1 }))
  finally close_entry (set_recovery f)

-- configureRecovery
unfoldable pub configure_recovery : Faults → Bytes → Exec Scm (Unit {0})
configure_recovery f name = do
  in_context connect_scm (attempt f.connect (λ s. record s { managers = s.managers + 1 }))
  finally disconnect (on_manager f name)

-- Install
unfoldable pub install : Faults → Bytes → Exec Scm (Unit {0})
install f name = do
  in_context create_service (attempt f.new_service (λ s. s))
  in_context install_service (attempt f.install (λ s. record s { installed = true }))
  configure_recovery f name

pub record LogConfig : Type 0 where
  pub file : Bytes
  pub max_size : ℤ
  pub max_files : ℤ
  pub max_age : ℤ
  pub compress : Bool

-- SetupLogging: the rotating file that the log goes to from then on, if any
unfoldable pub setup_logging :
    (Bytes → Result (Unit {0})) → (Bytes → Bytes) → LogConfig → Result (Option LogConfig)
setup_logging mkdir_all dir cfg =
    let made = mkdir_all (dir cfg.file) in
    if is_nil cfg.file
    then ok none
    else after (wrapping create_log_directory made) (λ _. ok (some cfg))
