-- ===== src/Service/Access.antt =====
-- `FixACL` of internal/winservice/acl.go: the runs of icacls, which is a parameter.
pub mod Sending
mod Tests
use mdbapi.Base.{Bool, true, false, Option, none, some, List, [], ◌∷◌, ◌++◌, if◌then◌else◌}
use mdbapi.Strings.{Bytes, codes}
use mdbapi.Mdb.Errors.{Error, Result, ok, err, wrapping, create_directory, icacls}
use mdbapi.Mdb.Exec.{Exec, pure, lift, in_context, ◌>>=◌, ◌>>◌}

-- the arguments of icacls.exe
abbrev pub Command : Type 0
Command = List Bytes

abbrev pub virtual_account : Bytes → Bytes
virtual_account svc_name = codes "NT SERVICE\\" ++ svc_name

unfoldable pub commands : Bytes → Bytes → List Command
commands dir svc_name =
    (dir ∷ codes "/inheritance:d" ∷ [])
    ∷ (dir ∷ codes "/remove:g" ∷ codes "Everyone" ∷ [])
    ∷ (dir ∷ codes "/remove:g" ∷ codes "Users" ∷ [])
    ∷ (dir ∷ codes "/remove:g" ∷ codes "Authenticated Users" ∷ [])
    ∷ (dir ∷ codes "/grant" ∷ codes "SYSTEM:(OI)(CI)F" ∷ [])
    ∷ (dir ∷ codes "/grant" ∷ codes "Administrators:(OI)(CI)F" ∷ [])
    ∷ (dir ∷ codes "/grant" ∷ (virtual_account svc_name ++ codes ":(OI)(CI)RX") ∷ [])
    ∷ []

pub record Shell : Type 0 where
  -- os.Stat says that the directory does not exist
  pub missing : Bytes → Bool
  pub mkdir_all : Bytes → Option Error
  pub icacls : Command → Option Error

-- an error as a result
abbrev pub made : Option Error → Result (Unit {0})
made none = ok tt
made (some e) = err e

-- one run, with the runs so far as the state
abbrev pub execute : Shell → Command → Exec (List Command) (Unit {0})
execute sh c sent = (made (sh.icacls c), sent ++ c ∷ [])

unfoldable pub run_all : Shell → List Command → Exec (List Command) (Unit {0})
run_all sh [] = pure tt
run_all sh (c ∷ cs) = do in_context (icacls c) (execute sh c); run_all sh cs

unfoldable pub ensure_dir : Shell → Bytes → Result (Unit {0})
ensure_dir sh dir =
    if sh.missing dir then wrapping (create_directory dir) (made (sh.mkdir_all dir)) else ok tt

-- FixACL
unfoldable pub fix_acl : Shell → Bytes → Bytes → Exec (List Command) (Unit {0})
fix_acl sh dir svc_name = do lift (ensure_dir sh dir); run_all sh (commands dir svc_name)
