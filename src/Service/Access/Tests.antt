-- ===== src/Service/Access/Tests.antt =====
-- A run of `FixACL` whose second command fails, as an instance of its theorem.
use mdbapi.Base.{false, Option, none, some, ◌∷◌, if◌then◌else◌}
use mdbapi.Strings.{codes, str_eq}
use mdbapi.Mdb.Errors.{Error, external}
use mdbapi.Service.Access.{Command, Shell}

abbrev refuses : Command → Option Error
refuses (dir ∷ option ∷ name ∷ more) =
    if str_eq name (codes "Everyone") then some (external (codes "exit status 5")) else none
refuses _ = none

abbrev shell : Shell
shell = record { missing = λ dir. false; mkdir_all = λ dir. none; icacls = refuses }
