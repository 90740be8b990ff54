-- ===== src/Command.antt =====
-- cmd/mdbapi/main.go: the commands. What they print is left out, but for the table of the check. The
-- flags are read by package flag, so a command takes the path of the configuration.
pub mod Keys
pub mod Check
mod Tests
use mdbapi.Base.{ℕ, Bool, true, false, Option, none, some, List, [], ◌∷◌, ◌++◌, if◌then◌else◌}
use mdbapi.Strings.{Bytes, codes, str_eq}
use mdbapi.Mdb.Errors.{Error, Result, ok, err}
use mdbapi.Mdb.Exec.{Exec}
use mdbapi.Config.{Config}
use mdbapi.Config.Expand.{after}
use mdbapi.Config.Check.{Problem}
use mdbapi.Config.Load.{System, Loaded, loaded, invalid, failed, load}
use mdbapi.Service.Manager.{Scm, Faults, install, LogConfig, setup_logging}
use mdbapi.Service.Access.{Command, Shell, virtual_account, fix_acl}

-- what main hands the arguments to; both errors print the usage and exit with 1
pub data Choice : Type 0 where
  no_command : Choice
  unknown_command : Bytes → Choice
  run_cmd install_cmd check_cmd keygen_cmd fixacl_cmd : List Bytes → Choice
  lifecycle_cmd : Bytes → List Bytes → Choice
  version : Choice

unfoldable pub choose : Bytes → List Bytes → Choice
choose cmd args =
    if str_eq cmd (codes "run")
    then run_cmd args
    else if str_eq cmd (codes "install")
    then install_cmd args
    else if str_eq cmd (codes "uninstall")
    then lifecycle_cmd (codes "uninstall") args
    else if str_eq cmd (codes "start")
    then lifecycle_cmd (codes "start") args
    else if str_eq cmd (codes "stop")
    then lifecycle_cmd (codes "stop") args
    else if str_eq cmd (codes "check")
    then check_cmd args
    else if str_eq cmd (codes "keygen")
    then keygen_cmd args
    else if str_eq cmd (codes "fixacl")
    then fixacl_cmd args
    else if str_eq cmd (codes "version")
    then version
    else unknown_command cmd

-- main, on os.Args
unfoldable pub main : List Bytes → Choice
main [] = no_command
main (exe ∷ []) = no_command
main (exe ∷ cmd ∷ args) = choose cmd args

-- how a command ends: a return from main, or fatalf and os.Exit(1)
pub data Exit : Type 0 where
  finished : Exit
  invalid_config : List Problem → Exit
  fatal : Error → Exit

-- service.Config
pub record ServiceSettings : Type 0 where
  pub name : Bytes
  pub display_name : Bytes
  pub description : Bytes
  pub user_name : Bytes
  pub arguments : List Bytes

unfoldable pub service_config : Config → ServiceSettings
service_config cfg = record {
  name = cfg.service.name;
  display_name = cfg.service.display_name;
  description = cfg.service.description;
  user_name = virtual_account cfg.service.name;
  arguments = [];
}

abbrev pub default_config_path : Bytes
default_config_path = codes "C:\\ProgramData\\MDBService\\config.yaml"

abbrev pub exit_of : Result (Unit {0}) → Exit
exit_of (ok _) = finished
exit_of (err e) = fatal e

-- the log settings of runCmd
abbrev pub log_config : Config → LogConfig
log_config cfg = record {
  file = cfg.service.log_file;
  max_size = cfg.service.log_max_size;
  max_files = cfg.service.log_max_files;
  max_age = cfg.service.log_max_age;
  compress = cfg.service.log_compress;
}

-- package service on a console: service.New and svc.Run, and the log directory
pub record Console : Type 0 where
  pub interactive : Bool
  pub new_service : ServiceSettings → Result (Unit {0})
  pub run : Config → Result (Unit {0})
  pub mkdir_all : Bytes → Result (Unit {0})
  pub dir : Bytes → Bytes

abbrev pub logging : Console → Config → Result (Unit {0})
logging con cfg =
    if con.interactive
    then ok tt
    else after (setup_logging con.mkdir_all con.dir (log_config cfg)) (λ _. ok tt)

abbrev pub run_with : Console → Loaded → Exit
run_with con (failed e) = fatal e
run_with con (invalid ps) = invalid_config ps
run_with con (loaded cfg) =
    exit_of (
      after (logging con cfg)
        (λ _. after (con.new_service (service_config cfg)) (λ _. con.run cfg)))

-- runCmd
unfoldable pub run_command : System → Console → Bytes → Exit
run_command sys con path = run_with con (load sys path)

abbrev pub install_with : Faults → Bytes → Loaded → Scm → Exit × Scm
install_with f path (failed e) s = (fatal e, s)
install_with f path (invalid ps) s = (invalid_config ps, s)
install_with f path (loaded cfg) s = let (r, s') = install f cfg.service.name s in (exit_of r, s')

-- installCmd
unfoldable pub install_command : System → Faults → Bytes → Scm → Exit × Scm
install_command sys f path = install_with f path (load sys path)

-- svc.Uninstall, svc.Start and svc.Stop
pub record Control : Type 0 where
  pub new_service : ServiceSettings → Result (Unit {0})
  pub uninstall : Result (Unit {0})
  pub start : Result (Unit {0})
  pub stop : Result (Unit {0})

unfoldable pub act : Control → Bytes → Result (Unit {0})
act ctl action =
    if str_eq action (codes "uninstall")
    then ctl.uninstall
    else if str_eq action (codes "start")
    then ctl.start
    else if str_eq action (codes "stop")
    then ctl.stop
    else ok tt

abbrev pub lifecycle_with : Control → Bytes → Loaded → Exit
lifecycle_with ctl action (failed e) = fatal e
lifecycle_with ctl action (invalid ps) = invalid_config ps
lifecycle_with ctl action (loaded cfg) =
    exit_of (after (ctl.new_service (service_config cfg)) (λ _. act ctl action))

-- lifecycleCmd
unfoldable pub lifecycle_command : System → Control → Bytes → Bytes → Exit
lifecycle_command sys ctl action path = lifecycle_with ctl action (load sys path)

-- the account that fixaclCmd names, also without a configuration
abbrev pub account_name : Loaded → Bytes
account_name (loaded cfg) = cfg.service.name
account_name (invalid ps) = codes "MDBRestService"
account_name (failed e) = codes "MDBRestService"

-- fixaclCmd
unfoldable pub fixacl_command : System → Shell → Bytes → Bytes → List Command → Exit × List Command
fixacl_command sys sh dir path sent =
    let (r, sent') = fix_acl sh dir (account_name (load sys path)) sent in (exit_of r, sent')
