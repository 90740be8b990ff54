-- ===== src/Command/Tests.antt =====
-- Runs of the commands, and instances of their theorems.
use mdbapi.Base.{◌≡◌, refl, true, false, none, List, [], ◌∷◌, ◌++◌, every, arith}
use mdbapi.Strings.{Bytes, codes, running_strings}
use mdbapi.Mdb.Errors.{ok, err, external}
use mdbapi.Mdb.Schema.{Db}
use mdbapi.Config.Load.Tests.{system, result, running_config}
use mdbapi.Config.Check.Valid.{IsKey}
use mdbapi.Command.{lifecycle_cmd, unknown_command, choose, main}
use mdbapi.Command.Check.{Outside, CheckRow, panicked, reported, is_err, check_command}
use mdbapi.Command.Check.Reporting.{opens, check_command-loaded}
use mdbapi.Command.Keys.{
  generate_key, spaces, new_line, is_keys_line, add_line, append_key_to_config,
}
use mdbapi.Command.Keys.Generated.{decode, generate_key-IsKey}
use mdbapi.Command.Keys.Appended.{IsAppended, append_key_to_config-IsAppended}

stop_chosen : main (codes "mdbapi.exe" ∷ codes "stop" ∷ []) ≡ lifecycle_cmd (codes "stop") []
unfolding main choose running_strings
stop_chosen = refl

restart_unknown :
    main (codes "mdbapi.exe" ∷ codes "restart" ∷ []) ≡ unknown_command (codes "restart")
unfolding main choose running_strings
restart_unknown = refl

abbrev blank_db : Db
blank_db = record { answer = λ sent stmt. err (external (codes "no permission")) }

-- no database opens, though the driver is there
abbrev broken : Outside
broken = record {
  odbc = record {
    open_conn = λ conn. err (external (codes "not a database"));
    ping = λ db. none;
    registry = none;
  };
  scan = λ values. ok [];
  sort = λ names. names;
  text = λ e. codes "error";
  probe = ok (codes "driver loaded");
}

check_command-loaded_example :
    ((every (opens broken.odbc) result.databases ≡ false)
      → check_command broken system (codes "config.yaml") ≡ panicked)
    × ((every (opens broken.odbc) result.databases ≡ true)
        → (table : List CheckRow) × (check_command broken system (codes "config.yaml")
            ≡ reported table (is_err broken.probe)))
unfolding running_config
check_command-loaded_example = check_command-loaded broken system (codes "config.yaml") result refl

abbrev sevens : Bytes
sevens = 7 ∷ 7 ∷ 7 ∷ 7 ∷ 7 ∷ 7 ∷ 7 ∷ 7 ∷ []

abbrev random : Bytes
random = sevens ++ (sevens ++ (sevens ++ sevens))

generate_key-IsKey_example :
    (key : Bytes) × (generate_key (ok random) ≡ ok key) × IsKey key × (decode key ≡ random)
generate_key-IsKey_example = generate_key-IsKey random (omega arith) refl

abbrev old_file : Bytes
old_file = codes "auth:" ++ 10 ∷ (codes "  keys:" ++ 10 ∷ codes "    - \"old\"")

key_added : append_key_to_config (λ s. none) none (codes "new") old_file ≡ (
  ok tt,
  codes "auth:"
      ++ 10 ∷ (codes "  keys:" ++ 10 ∷ (codes "    - \"new\"" ++ 10 ∷ codes "    - \"old\"")),
)
unfolding running_strings spaces new_line is_keys_line add_line append_key_to_config
key_added = refl

append_key_to_config-IsAppended_example :
    let (r, file) = append_key_to_config (λ s. none) none (codes "new") old_file in
    IsAppended (codes "new") old_file r file
append_key_to_config-IsAppended_example =
    append_key_to_config-IsAppended (λ s. none) (codes "new") old_file (λ s. refl) refl
