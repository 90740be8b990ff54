-- ===== src/Service/Manager/Tests.antt =====
-- An installation, as an instance of the theorem on `Install`.
use mdbapi.Base.{◌≡◌, true, false, none, []}
use mdbapi.Strings.{codes}
use mdbapi.Mdb.Errors.{ok}
use mdbapi.Service.Manager.{Scm, Faults, install, recovery_actions}
use mdbapi.Service.Manager.Recovery.{install-IsRecoverable}

abbrev no_faults : Faults
no_faults = record {
  new_service = none;
  install = none;
  connect = none;
  open_entry = none;
  set_actions = none;
  set_flag = none;
}

abbrev scm : Scm
scm = record {
  installed = false;
  actions = [];
  reset_period = 0;
  on_non_crash = false;
  managers = 0;
  services = 0;
}

install-IsRecoverable_example :
    let (r, s) = install no_faults (codes "S") scm in
    ((r ≡ ok tt)
      → (s.installed ≡ true)
        × (s.actions ≡ recovery_actions)
        × (s.reset_period ≡ 3600)
        × (s.on_non_crash ≡ true))
    × (s.managers ≡ 0)
    × (s.services ≡ 0)
install-IsRecoverable_example = install-IsRecoverable no_faults (codes "S") scm
