-- ===== src/Updater/Fetching.antt =====
-- `downloadAndExtract` and the temporary directory of `downloadAndVerify` of
-- internal/updater/updater.go, and `extractFromZip` of internal/updater/zip.go.
pub mod Removing
use mdbapi.Base.{
  ℕ, ◌+◌, ◌-◌, Bool, true, false, Option, none, some, List, [], ◌∷◌, ◌++◌, ◌==◌, if◌then◌else◌,
  ◌>>=◌,
}
use mdbapi.Strings.{Bytes, codes, equal_fold}
use mdbapi.Updater.Develop.{Archive}

-- the network and the file system: `none` and false are errors
pub record Fetch : Type 0 where
  pub new_request : Bytes → Bool
  -- the status and, if it can be read to its end, the body
  pub answer : Bytes → Option (ℕ × Option Bytes)
  pub mkdir_temp : Bool
  pub create : Bool
  -- the copy to the disk
  pub copy : Bool

-- the temporary directories that exist
abbrev pub Temp : Type 0
Temp = ℕ

abbrev pub made : Temp → Temp
made t = t + 1

abbrev pub removed : Temp → Temp
removed t = t - 1

-- io.Copy into the file, in a new directory
abbrev pub stored : Fetch → Option Bytes → Temp → Option Bytes × Temp
stored f none t = (none, removed t)
stored f (some body) t = if f.copy then (some body, t) else (none, removed t)

-- behind a response
abbrev pub received : Fetch → Option (ℕ × Option Bytes) → Temp → Option Bytes × Temp
received f none t = (none, t)
received f (some (status, body)) t =
    if status == 200
    then (if f.mkdir_temp
        then (if f.create then stored f body (made t) else (none, removed (made t)))
        else (none, t))
    else (none, t)

-- downloadAndExtract, with the archive in the place of its path
unfoldable pub download_and_extract : Fetch → Bytes → Temp → Option Bytes × Temp
download_and_extract f url t = if f.new_request url then received f (f.answer url) t else (none, t)

-- a file of an archive: its name, and its content if it can be read
pub record Entry : Type 0 where
  pub name : Bytes
  pub content : Option Bytes

-- the loop of extractFromZip: the first file of the name decides, also when it cannot be read
unfoldable pub find_entry : (Bytes → Bytes) → List Entry → Bytes → Option Bytes
find_entry base [] target = none
find_entry base (e ∷ es) target =
    let rest = find_entry base es target in
    if equal_fold (base e.name) target then e.content else rest

-- extractFromZip, over zip.OpenReader, filepath.Base and whether the file can be written
unfoldable pub extract_from_zip :
    (Bytes → Option (List Entry)) → (Bytes → Bytes) → Bool → Bytes → Bytes → Option Bytes
extract_from_zip open_reader base writes zip target = do
  entries ← open_reader zip
  content ← find_entry base entries target
  if writes then some content else none

-- downloadAndVerify around its temporary directory; `body` is what it does with the archive
abbrev pub released {ℓ} : {A : Type ℓ} → (Bytes → A) → A → Option Bytes × Temp → A × Temp
released body failed (none, t) = (failed, t)
released body failed (some zip, t) = (body zip, removed t)

unfoldable pub with_download {ℓ} : {A : Type ℓ} → Fetch → Bytes → (Bytes → A) → A → Temp → A × Temp
with_download f url body failed t = released body failed (download_and_extract f url t)

-- the archive of a URL, as the check of the develop channel takes it
unfoldable pub archive_of :
    Fetch → (Bytes → Option (List Entry)) → (Bytes → Bytes) → Bool → Bytes → Option Archive
archive_of f open_reader base writes url =
    (with_download f url (λ zip. some (λ name. extract_from_zip open_reader base writes zip name))
      none 0).0
