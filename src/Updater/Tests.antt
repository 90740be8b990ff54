-- ===== src/Updater/Tests.antt =====
-- Runs of internal/updater/updater.go with a newer artifact on both servers or a newer release, and
-- instances of the theorems.
use mdbapi.Base.{◌≡◌, refl, false, true, none, some, List, [], ◌∷◌}
use mdbapi.Strings.{codes, str_eq, running_strings}
use mdbapi.Updater.Swap.{Faults, swap, IsSettled, swap-IsSettled}
use mdbapi.Updater.Develop.{
  Artifact, Listing, World, Updater, Signal, State, request, candidates, extract_first, is_verified,
  download_and_verify, artifact_name, api_url, nightly_url, is_current, update_to, check_develop,
}
use mdbapi.Updater.Verified.{IsChecked, check_develop_outcome}
use mdbapi.Updater.Requests.{Continues, nightly_gets_token}
use mdbapi.Updater.Release.{Source, check_release, Settings, check, tick, done, loop, start}
use mdbapi.Updater.Release.Repeating.{IsReleaseCheck, check_release-IsUpgrade, start_applies_twice}
use mdbapi.Updater.Fetching.{
  Fetch, Entry, download_and_extract, find_entry, extract_from_zip, with_download,
}

-- everything that a check computes with
unfoldable running_updater : Unit {0}
unfolding running_strings swap candidates extract_first is_verified download_and_verify
    artifact_name api_url nightly_url is_current update_to check_develop
running_updater = tt

abbrev calm : Faults
calm = record {
  first_remove_fails = false;
  last_remove_fails = true;
  rename_fails = false;
  copy_fails = none;
  restore_fails = false;
}

abbrev full_disk : Faults
full_disk = record calm { copy_fails = some (some (codes "ne")) }

abbrev artifact : Artifact
artifact = record {
  archive_download_url = codes "https://api.github.com/zip";
  head_sha = codes "abcdef0123";
}

abbrev listing : Listing
listing = record { total_count = 1; artifacts = artifact ∷ [] }

abbrev world : World
world = record {
  listing = some listing;
  download = λ url. some (λ name. some (codes "new"));
  version_output = λ binary. some (codes "mdbapi abcdef0");
  faults = λ url. calm;
  arch = codes "amd64";
}

abbrev updater : Updater
updater = record {
  repo = codes "o/r";
  current_commit = codes "1234567";
  token = codes "T";
  variant = [];
}

abbrev before : State
before = record {
  disk = record { exe = some (codes "old"); old = none };
  requests = [];
  signal = Signal.waiting;
}

applied : (check_develop world updater before).disk.exe ≡ some (codes "new")
unfolding running_updater
applied = refl

-- a later check, before the process has ended, closes the channel again
closed_twice :
    (check_develop world updater (check_develop world updater before)).signal ≡ Signal.panicked
unfolding running_updater
closed_twice = refl

swap-IsSettled_example :
    IsSettled (codes "old") (codes "new") (swap full_disk (codes "new") before.disk)
swap-IsSettled_example = swap-IsSettled full_disk (codes "old") (codes "new") before.disk refl refl

check_develop_outcome_example :
    IsChecked world updater (codes "old") (check_develop world updater before)
check_develop_outcome_example =
    check_develop_outcome world updater (codes "old") before (λ url. refl) refl refl

nightly_gets_token_example :
    Continues
      (request (api_url world updater) updater.token before)
      (nightly_url world updater, updater.token)
      (check_develop world updater before)
unfolding running_updater
nightly_gets_token_example =
    nightly_gets_token world updater listing artifact [] before refl refl refl refl

abbrev source : Source
source = record {
  new_source = true;
  new_updater = true;
  detect_latest = some (some (codes "1.1.0"));
  less_or_equal = λ latest current. str_eq latest current;
  executable_path = true;
  update_to = λ latest d. (true, record d { exe = some latest });
  remove_fails = false;
}

abbrev settings : Settings
settings = record {
  channel = codes "release";
  current_ver = codes "1.0.0";
  updater = updater;
  source = source;
  world = world;
}

upgraded : (check_release source (codes "1.0.0") before).disk.exe ≡ some (codes "1.1.0")
unfolding running_strings check_release
upgraded = refl

up_to_date : check_release source (codes "1.1.0") before ≡ before
unfolding running_strings check_release
up_to_date = refl

stops_when_done : (start settings (done ∷ tick ∷ []) before).signal ≡ Signal.closed
unfolding running_updater check_release check loop start
stops_when_done = refl

check_release-IsUpgrade_example :
    IsReleaseCheck source (codes "1.0.0") before (check_release source (codes "1.0.0") before)
check_release-IsUpgrade_example = check_release-IsUpgrade source (codes "1.0.0") before

start_applies_twice_example :
    ((start settings [] before).signal ≡ Signal.closed)
    × ((start settings (tick ∷ done ∷ []) before).signal ≡ Signal.panicked)
unfolding running_strings
start_applies_twice_example =
    start_applies_twice settings (codes "1.1.0") (done ∷ []) before refl
      (record {
        source = refl;
        updater = refl;
        found = refl;
        higher = refl;
        path = refl;
        puts = λ d. (record d { exe = some (codes "1.1.0") }, refl);
      })
      refl

abbrev broken_copy : Fetch
broken_copy = record {
  new_request = λ url. true;
  answer = λ url. some (200, some (codes "PK"));
  mkdir_temp = true;
  create = true;
  copy = false;
}

abbrev fetch : Fetch
fetch = record broken_copy { copy = true }

downloaded :
    download_and_extract fetch (codes "https://nightly.link/zip") 0 ≡ (some (codes "PK"), 1)
unfolding running_strings download_and_extract
downloaded = refl

abbrev entries : List Entry
entries =
    record { name = codes "README"; content = some (codes "r") }
    ∷ record { name = codes "MDBAPI.exe"; content = some (codes "new") }
    ∷ []

-- letters of either case are the same
found_in_archive : find_entry (λ path. path) entries (codes "mdbapi.exe") ≡ some (codes "new")
unfolding running_strings find_entry
found_in_archive = refl

extracted :
    extract_from_zip (λ zip. some entries) (λ path. path) true (codes "PK") (codes "mdbapi.exe")
    ≡ some (codes "new")
unfolding running_strings find_entry extract_from_zip
extracted = refl

-- a copy that breaks off leaves no directory behind
no_directory_left :
    with_download broken_copy (codes "https://nightly.link/zip") (λ zip. some zip) none 2
    ≡ (none, 2)
unfolding running_strings download_and_extract with_download
no_directory_left = refl
