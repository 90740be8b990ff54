-- ===== src/Updater/Fetching/Removing.antt =====
-- The temporary directory of `downloadAndVerify` of internal/updater/updater.go.
use mdbapi.Base.{ℕ, ◌+◌, ◌≡◌, refl, Option, none, some, ◌==◌, arith, Bool-cases, inl, inr}
use mdbapi.Strings.{Bytes}
use mdbapi.Updater.Fetching.{
  Fetch, Temp, stored, received, download_and_extract, released, with_download,
}

-- with an archive one more directory exists, and with an error none
abbrev Left : Temp → Option Bytes × Temp → Type 0
Left t (none, t') = t' ≡ t
Left t (some zip, t') = t' ≡ t + 1

stored-Left : (f : Fetch) (body : Option Bytes) (t : Temp) → Left t (stored f body (t + 1))
stored-Left f none t = omega arith
stored-Left f (some body) t = elim (Bool-cases f.copy) [
  | inl copied ↦ rw copied
  | inr broken ↦ rw broken (omega arith)
]

received-Left :
    (f : Fetch) (answer : Option (ℕ × Option Bytes)) (t : Temp) → Left t (received f answer t)
received-Left f none t = refl
received-Left f (some (status, body)) t = elim (Bool-cases (status == 200)) [
  | inr other ↦ rw other
  | inl fine ↦ elim (Bool-cases f.mkdir_temp) [
    | inr no_dir ↦ rw (fine, no_dir)
    | inl dir ↦ elim (Bool-cases f.create) [
      | inr no_file ↦ rw (fine, dir, no_file) (omega arith)
      | inl file ↦ rw (fine, dir, file) (stored-Left f body t)
    ]
  ]
]

download_and_extract-Left :
    (f : Fetch) (url : Bytes) (t : Temp) → Left t (download_and_extract f url t)
unfolding download_and_extract
download_and_extract-Left f url t = elim (Bool-cases (f.new_request url)) [
  | inl built ↦ rw built (received-Left f (f.answer url) t)
  | inr bad ↦ rw bad
]

released-Left :
    {A : Type 0} (body : Bytes → A) (failed : A) (r : Option Bytes × Temp) (t : Temp)
    → Left t r
    → (released body failed r).1 ≡ t
released-Left body failed (none, t') t h = h
released-Left body failed (some zip, t') t h = omega (arith, h)

-- Whatever fails, and whatever is done with the archive, no temporary directory of a download is
-- left behind, as long as one that is removed is gone.
pub with_download_removes :
    {A : Type 0} (f : Fetch) (url : Bytes) (body : Bytes → A) (failed : A) (t : Temp)
    → (with_download f url body failed t).1 ≡ t
unfolding with_download
with_download_removes f url body failed t =
    released-Left body failed (download_and_extract f url t) t (download_and_extract-Left f url t)
