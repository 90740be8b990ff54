-- ===== src/Mdb/Probe.antt =====
-- internal/mdb/probe.go: whether the Access driver can be loaded.
pub mod Contains
mod Tests
use mdbapi.Base.{
  ℕ, zero, suc, ◌+◌, ◌-◌, Bool, true, false, ◌&&◌, ◌||◌, Option, none, some, if◌then◌else◌, ltb,
  leb, length, take, drop,
}
use mdbapi.Strings.{Bytes, codes, str_eq}
use mdbapi.Mdb.Errors.{Error, Result, ok, err, probe_open, probe_ping}
use mdbapi.Mdb.Schema.{Db}

-- so many rounds of the loop of containsStr, on the text from the round's position
unfoldable pub contains_rounds : ℕ → Bytes → Bytes → Bool
contains_rounds zero s sub = false
contains_rounds (suc k) s sub =
    let rest = contains_rounds k (drop 1 s) sub in
    if str_eq (take (length sub) s) sub then true else rest

-- from 0 to len(s) - len(sub), which may be negative
unfoldable pub contains_str : Bytes → Bytes → Bool
contains_str s sub =
    if leb (length sub) (length s)
    then contains_rounds (suc (length s - length sub)) s sub
    else false

unfoldable pub contains : Bytes → Bytes → Bool
contains s sub =
    leb (length sub) (length s) && (str_eq s sub || (ltb 0 (length s) && contains_str s sub))

abbrev pub probe_conn_string : Bytes
probe_conn_string = codes "DRIVER={Microsoft Access Driver (*.mdb, *.accdb)};DBQ=__probe__.mdb;"

-- the error of Ping with its text
abbrev pub pinged : Option (Error × Bytes) → Result Bytes
pinged none = ok (codes "driver loaded")
pinged (some (e, text)) =
    if contains text (codes "Could not find file")
      || contains text (codes "not a valid path")
      || contains text (codes "file not found")
    then ok (codes "driver loaded (file probe succeeded)")
    else err (Error.wrap probe_ping e)

abbrev pub opened : (Db → Option (Error × Bytes)) → Result Db → Result Bytes
opened ping (err e) = err (Error.wrap probe_open e)
opened ping (ok db) = pinged (ping db)

-- ProbeDriver
unfoldable pub probe_driver : (Bytes → Result Db) → (Db → Option (Error × Bytes)) → Result Bytes
probe_driver open_conn ping = opened ping (open_conn probe_conn_string)
