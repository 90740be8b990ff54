-- ===== src/Updater/Develop.antt =====
-- `checkDevelop` and `downloadAndVerify` of internal/updater/updater.go.
use mdbapi.Base.{
  ℕ, Bool, true, false, ◌&&◌, ◌||◌, Option, none, some, List, [], ◌∷◌, ◌++◌, leb, ◌==◌,
  if◌then◌else◌, is_nil, length, take,
}
use mdbapi.Strings.{Bytes, codes, str_eq, contains}
use mdbapi.Updater.Swap.{Disk, Faults, swap}

pub record Artifact : Type 0 where
  pub archive_download_url : Bytes
  pub head_sha : Bytes

pub record Listing : Type 0 where
  pub total_count : ℕ
  pub artifacts : List Artifact

-- an archive, by what extractFromZip gives for a name
abbrev pub Archive : Type 0
Archive = Bytes → Option Bytes

-- what the outside answers: `none` is any error on the way
pub record World : Type 0 where
  pub listing : Option Listing
  pub download : Bytes → Option Archive
  -- the output of `<binary> version`
  pub version_output : Bytes → Option Bytes
  pub faults : Bytes → Faults
  pub arch : Bytes

-- Updater
pub record Updater : Type 0 where
  pub repo : Bytes
  pub current_commit : Bytes
  pub token : Bytes
  pub variant : Bytes

-- the channel of restartSignal; a second close panics
pub data Signal : Type 0 where
  waiting closed panicked : Signal

abbrev pub close_signal : Signal → Signal
close_signal Signal.waiting = Signal.closed
close_signal _ = Signal.panicked

-- the disk, the requests so far with the token that each carries, and the signal
pub record State : Type 0 where
  pub disk : Disk
  pub requests : List (Bytes × Bytes)
  pub signal : Signal

abbrev pub request : Bytes → Bytes → State → State
request url token s = record s { requests = s.requests ++ (url, token) ∷ [] }

abbrev pub is_tsnet : Updater → Bool
is_tsnet u = str_eq u.variant (codes "tsnet")

unfoldable pub candidates : Updater → List Bytes
candidates u =
    if is_tsnet u
    then codes "mdbapi_tsnet.exe" ∷ codes "mdbapi.exe" ∷ []
    else codes "mdbapi.exe" ∷ []

-- the first name that the archive has
unfoldable pub extract_first : Archive → List Bytes → Option Bytes
extract_first zip [] = none
extract_first zip (name ∷ names) = elim (zip name) [
  | some b ↦ some b
  | none ↦ extract_first zip names
]

-- a binary that does not answer is taken
unfoldable pub is_verified : World → Bytes → Bytes → Bool
is_verified w expected binary =
    is_nil expected
    || elim (w.version_output binary) [ none ↦ true | some out ↦ contains out (take 7 expected) ]

abbrev pub swapped : State → Bool × Disk → Bool × State
swapped s (done, disk) = (done, record s { disk = disk })

abbrev pub apply_binary : World → Bytes → Bytes → Option Bytes → State → Bool × State
apply_binary w url expected none s = (false, s)
apply_binary w url expected (some binary) s =
    if is_verified w expected binary
    then swapped s (swap (w.faults url) binary s.disk)
    else (false, s)

abbrev pub apply_archive : World → Updater → Bytes → Bytes → Option Archive → State → Bool × State
apply_archive w u url expected none s = (false, s)
apply_archive w u url expected (some zip) s =
    apply_binary w url expected (extract_first zip (candidates u)) s

-- downloadAndVerify; true is a return without an error
unfoldable pub download_and_verify : World → Updater → Bytes → Bytes → State → Bool × State
download_and_verify w u url expected s =
    apply_archive w u url expected (w.download url) (request url u.token s)

unfoldable pub artifact_name : World → Updater → Bytes
artifact_name w u = codes "windows-" ++ (w.arch ++ (if is_tsnet u then codes "-tsnet" else []))

unfoldable pub api_url : World → Updater → Bytes
api_url w u =
    codes "https://api.github.com/repos/"
    ++ (u.repo ++ (codes "/actions/artifacts?name=" ++ (artifact_name w u ++ codes "&per_page=1")))

unfoldable pub nightly_url : World → Updater → Bytes
nightly_url w u =
    codes "https://nightly.link/"
    ++ (u.repo ++ (codes "/workflows/ci.yml/develop/" ++ (artifact_name w u ++ codes ".zip")))

-- the first seven digits agree
unfoldable pub is_current : Bytes → Bytes → Bool
is_current expected current =
    leb 7 (length expected) && leb 7 (length current) && str_eq (take 7 expected) (take 7 current)

abbrev pub signalled : Bool × State → State
signalled (true, s) = record s { signal = close_signal s.signal }
signalled (false, s) = s

-- the second attempt, over the GitHub API
abbrev pub or_fallback : World → Updater → Artifact → Bool × State → Bool × State
or_fallback w u a (true, s) = (true, s)
or_fallback w u a (false, s) =
    let second = download_and_verify w u a.archive_download_url a.head_sha s in
    if is_nil u.token then (false, s) else second

unfoldable pub update_to : World → Updater → Artifact → State → State
update_to w u a s =
    signalled (or_fallback w u a (download_and_verify w u (nightly_url w u) a.head_sha s))

abbrev pub check_artifacts : World → Updater → List Artifact → State → State
check_artifacts w u [] s = s
check_artifacts w u (a ∷ artifacts) s =
    let updated = update_to w u a s in if is_current a.head_sha u.current_commit then s else updated

abbrev pub check_listing : World → Updater → Option Listing → State → State
check_listing w u none s = s
check_listing w u (some l) s =
    let checked = check_artifacts w u l.artifacts s in if l.total_count == 0 then s else checked

-- checkDevelop
unfoldable pub check_develop : World → Updater → State → State
check_develop w u s = check_listing w u w.listing (request (api_url w u) u.token s)
