-- ===== src/Service/Manager/Recovery.antt =====
-- What `Install` of internal/winservice/service.go leaves at the service manager.
use mdbapi.Base.{◌≡◌, true, arith}
use mdbapi.Strings.{Bytes}
use mdbapi.Mdb.Errors.{ok}
use mdbapi.Service.Manager.{
  Scm, Faults, set_recovery, on_manager, configure_recovery, install, recovery_actions,
}

-- If `Install` returns no error, the service is installed, it is restarted after a failure, the
-- first and second time behind 5 seconds and then behind 30, and an exit with an error code counts
-- as a failure. With or without an error, no handle on the manager stays open.
pub install-IsRecoverable :
    (f : Faults) (name : Bytes) (s : Scm)
    → let (r, s') = install f name s in
      ((r ≡ ok tt)
        → (s'.installed ≡ true)
          × (s'.actions ≡ recovery_actions)
          × (s'.reset_period ≡ 3600)
          × (s'.on_non_crash ≡ true))
      × (s'.managers ≡ s.managers)
      × (s'.services ≡ s.services)
unfolding install configure_recovery on_manager set_recovery
install-IsRecoverable f name s = ground arith
