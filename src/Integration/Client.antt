-- ===== src/Integration/Client.antt =====
-- The checks of cmd/integration/main.go. The HTTP client and the JSON decoder are parameters.
use mdbapi.Base.{
  ℕ, ◌+◌, Bool, true, false, Option, none, some, List, [], ◌∷◌, ◌++◌, ◌==◌, if◌then◌else◌, is_nil,
}
use mdbapi.Base.Assoc.{lookup, insert}
use mdbapi.Strings.{Bytes, codes, str_eq, bytes_eq}
use mdbapi.Mdb.Errors.{Result, ok, err, external}
use mdbapi.Mdb.Pool.{DbConfig}
use mdbapi.Config.Expand.{after}

-- apiError and envelope; `body` is Data, with no bytes for a missing one
pub record ApiError : Type 0 where
  pub code : Bytes
  pub message : Bytes

pub record Envelope : Type 0 where
  pub body : Bytes
  pub error : Option ApiError

-- a request by its method, the parts of its path, whether it carries the key, and its sql
pub record Request : Type 0 where
  pub method : Bytes
  pub segments : List Bytes
  pub auth : Bool
  pub sql : Option Bytes

pub record Reply : Type 0 where
  pub envelope : Envelope
  pub status : ℕ

-- dbInfo
pub record DbInfo : Type 0 where
  pub alias : Bytes
  pub path : Bytes
  pub status : Bytes

-- json.Unmarshal of Data into the structs of the checks; a row is the list of its keys, and `none`
-- is a `rows` that is null or missing
pub record Decoder : Type 0 where
  pub status : Bytes → Result Bytes
  pub databases : Bytes → Result (List DbInfo)
  pub tables : Bytes → Result (List Bytes)
  pub rows : Bytes → Result (Option (List (List Bytes)))

-- checkRunner, and the requests made so far
pub record Runner : Type 0 where
  pub total : ℕ
  pub failed : ℕ
  pub sent : List Request

-- doRequest, whose answer may depend on the requests before
pub record Client : Type 0 where
  pub answer : List Request → Request → Result Reply
  pub decoder : Decoder

-- pass
unfoldable pub pass : Runner → Runner
pass r = record r { total = r.total + 1 }

-- fail
unfoldable pub fail : Runner → Runner
fail r = record r { total = r.total + 1; failed = r.failed + 1 }

-- the runner behind a request
abbrev pub asked : Request → Runner → Runner
asked req r = record r { sent = r.sent ++ req ∷ [] }

-- decodeData
unfoldable pub decode_data {ℓ} : {A : Type ℓ} → (Bytes → Result A) → Envelope → Result A
decode_data unmarshal env = elim env.error [
  | some e ↦ err (external e.message)
  | none ↦
      if is_nil env.body then err (external (codes "response missing data")) else unmarshal env.body
]

-- a reply with status 200, and its data
abbrev pub ok_data {ℓ} : {A : Type ℓ} → (Bytes → Result A) → Reply → Result A
ok_data unmarshal reply =
    let decoded = decode_data unmarshal reply.envelope in
    if reply.status == 200 then decoded else err (external (codes "status"))

-- doRequest and the steps that the checks have in common
unfoldable pub get_data {ℓ} :
    {A : Type ℓ} → Client → (Bytes → Result A) → Request → Runner → Result A
get_data client unmarshal req r = after (client.answer r.sent req) (ok_data unmarshal)

abbrev pub get : List Bytes → Bool → Request
get segments auth = record { method = codes "GET"; segments = segments; auth = auth; sql = none }

abbrev pub post : List Bytes → Bytes → Request
post segments sql = record {
  method = codes "POST";
  segments = segments;
  auth = true;
  sql = some sql;
}

-- a check that passes or fails by its result
abbrev pub noted : Result (Unit {0}) → Runner → Runner
noted (ok _) r = pass r
noted (err e) r = fail r

abbrev pub expect : Bool → Result (Unit {0})
expect true = ok tt
expect false = err (external (codes "unexpected"))

-- runnerCheckHealth
unfoldable pub check_health : Client → Runner → Runner
check_health client r =
    let req = get (codes "v1" ∷ codes "health" ∷ []) false in
    noted
      (after (get_data client client.decoder.status req r)
        (λ status. expect (str_eq status (codes "ok"))))
      (asked req r)

-- byAlias
unfoldable pub by_alias : List DbInfo → List (Bytes × DbInfo) → List (Bytes × DbInfo)
by_alias [] m = m
by_alias (d ∷ ds) m = by_alias ds (insert d.alias d m)

abbrev pub is_fine : DbInfo → Bool
is_fine d = str_eq d.status (codes "ok")

-- one round of the loop over the configurations: the runner, whether one was missing, and whether
-- one had another status
pub record Seen : Type 0 where
  pub runner : Runner
  pub missing : Bool
  pub bad_status : Bool

abbrev pub seen_one : Option DbInfo → Seen → Seen
seen_one none s = record s { missing = true }
seen_one (some d) s =
    if is_fine d then s else record s { runner = fail s.runner; bad_status = true }

unfoldable pub see_all : List (Bytes × DbInfo) → List DbConfig → Seen → Seen
see_all m [] s = s
see_all m (cfg ∷ cfgs) s = see_all m cfgs (seen_one (lookup cfg.alias m) s)

abbrev pub concluded : Seen → Runner
concluded s = if s.missing then fail s.runner else if s.bad_status then s.runner else pass s.runner

abbrev pub databases_seen :
    List DbConfig → Runner → Result (List DbInfo) → Runner × List (Bytes × DbInfo)
databases_seen cfgs r (err e) = (fail r, [])
databases_seen cfgs r (ok dbs) = (
  concluded
      (see_all (by_alias dbs []) cfgs (record { runner = r; missing = false; bad_status = false })),
  by_alias dbs [],
)

-- runnerCheckDatabases
unfoldable pub check_databases : Client → List DbConfig → Runner → Runner × List (Bytes × DbInfo)
check_databases client cfgs r =
    let req = get (codes "v1" ∷ []) true in
    databases_seen cfgs (asked req r) (get_data client client.decoder.databases req r)
