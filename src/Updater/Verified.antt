-- ===== src/Updater/Verified.antt =====
-- What `checkDevelop` of internal/updater/updater.go leaves behind.
use mdbapi.Base.{
  ◌≡◌, refl, ◌⊎◌, inl, inr, Bool, true, false, Option, none, some, List, [], ◌∷◌, ◌==◌, is_nil,
  Bool-cases, Option-cases, take,
}
use mdbapi.Strings.{Bytes, contains}
use mdbapi.Updater.Swap.{Disk, swap, IsSettled, swap-IsSettled}
use mdbapi.Updater.Develop.{
  Artifact, Listing, Archive, World, Updater, Signal, State, request, candidates, extract_first,
  is_verified, swapped, apply_binary, apply_archive, download_and_verify, api_url, nightly_url,
  is_current, signalled, or_fallback, update_to, check_artifacts, check_listing, check_develop,
}

-- a binary whose report, if it gives one, holds the first seven digits of a commit that is known
abbrev pub IsOfCommit : World → Bytes → Bytes → Type 0
IsOfCommit w commit binary =
    (commit ≡ [])
    ⊎ ((w.version_output binary ≡ none)
        ⊎ ((report : Bytes) × (w.version_output binary ≡ some report)
            × (contains report (take 7 commit) ≡ true)))

-- a binary of a commit is in place
abbrev pub IsApplied : World → Bytes → State → Type 0
IsApplied w commit s = (new : Bytes) × (s.disk.exe ≡ some new) × IsOfCommit w commit new

verified-IsOfCommit :
    (w : World) (commit binary : Bytes)
    → is_verified w commit binary ≡ true
    → IsOfCommit w commit binary
unfolding is_verified
verified-IsOfCommit w [] binary h = inl refl
verified-IsOfCommit w (c ∷ commit) binary h = elim (Option-cases (w.version_output binary)) [
  | inl silent ↦ inr (inl silent)
  | inr (report, said) ↦ inr (inr (report, said, rw said at h))
]

abbrev pub IsAttempt : World → Bytes → Bytes → Bool × State → Type 0
IsAttempt w expected running (true, s) = IsApplied w expected s × (s.signal ≡ Signal.waiting)
IsAttempt w expected running (false, s) = (s.disk.exe ≡ some running) × (s.signal ≡ Signal.waiting)

-- the last rename of the replacement never fails
abbrev pub Restores : World → Type 0
Restores w = (url : Bytes) → (w.faults url).restore_fails ≡ false

-- a state in which the service runs and no restart is signalled
abbrev pub IsRunning : Bytes → State → Type 0
IsRunning running s = (s.disk.exe ≡ some running) × (s.signal ≡ Signal.waiting)

swapped-IsAttempt :
    (w : World) (expected running new : Bytes) (s : State) (r : Bool × Disk)
    → s.signal ≡ Signal.waiting
    → is_verified w expected new ≡ true
    → IsSettled running new r
    → IsAttempt w expected running (swapped s r)
swapped-IsAttempt w expected running new s (true, d) quiet good h =
    ((new, h, verified-IsOfCommit w expected new good), quiet)
swapped-IsAttempt w expected running new s (false, d) quiet good h = (h, quiet)

-- the artifact that GitHub lists first, and its commit does not agree with the one that runs
abbrev pub FirstNew : World → Updater → Artifact → Type 0
FirstNew w u a =
    ((l : Listing) × (w.listing ≡ some l) × ((others : List Artifact) × (l.artifacts ≡ a ∷ others)))
    × (is_current a.head_sha u.current_commit ≡ false)

-- nothing happened, or a binary of the listed commit is in place and the restart is signalled
abbrev pub IsChecked : World → Updater → Bytes → State → Type 0
IsChecked w u running s =
    IsRunning running s
    ⊎ ((a : Artifact) × FirstNew w u a × IsApplied w a.head_sha s × (s.signal ≡ Signal.closed))

module _ (w : World) (restores : Restores w) (u : Updater) (running : Bytes) where
  apply-IsAttempt :
      (url expected : Bytes) (o : Option Archive) (s : State)
      → IsRunning running s
      → IsAttempt w expected running (apply_archive w u url expected o s)
  apply-IsAttempt url expected none s h = h
  apply-IsAttempt url expected (some zip) s h = binary (extract_first zip (candidates u))
    where
      binary : (o : Option Bytes) → IsAttempt w expected running (apply_binary w url expected o s)
      binary none = h
      binary (some new) = elim (Bool-cases (is_verified w expected new)) [
        | inl good ↦ rw good (
            swapped-IsAttempt w expected running new s (swap (w.faults url) new s.disk) h.1 good
              (swap-IsSettled (w.faults url) running new s.disk h.0 (restores url)))
        | inr bad ↦ rw bad h
      ]

  attempt :
      (url expected : Bytes) (s : State)
      → IsRunning running s
      → IsAttempt w expected running (download_and_verify w u url expected s)
  unfolding download_and_verify
  attempt url expected s h = apply-IsAttempt url expected (w.download url) (request url u.token s) h

  fallback :
      (a : Artifact) (r : Bool × State)
      → IsAttempt w a.head_sha running r
      → IsAttempt w a.head_sha running (or_fallback w u a r)
  fallback a (true, s) h = h
  fallback a (false, s) h = elim (Bool-cases (is_nil u.token)) [
    | inl no_token ↦ rw no_token h
    | inr token ↦ rw token (attempt a.archive_download_url a.head_sha s h)
  ]

  signalled-IsChecked :
      (a : Artifact) (r : Bool × State)
      → FirstNew w u a
      → IsAttempt w a.head_sha running r
      → IsChecked w u running (signalled r)
  signalled-IsChecked a (true, s) first (h, quiet) = inr (a, first, h, rw quiet refl)
  signalled-IsChecked a (false, s) first h = inl h

  artifacts-IsChecked :
      (l : Listing) (artifacts : List Artifact) (s : State)
      → w.listing ≡ some l
      → l.artifacts ≡ artifacts
      → IsRunning running s
      → IsChecked w u running (check_artifacts w u artifacts s)
  unfolding update_to
  artifacts-IsChecked l [] s listed e h = inl h
  artifacts-IsChecked l (a ∷ artifacts) s listed e h =
      elim (Bool-cases (is_current a.head_sha u.current_commit)) [
        | inl current ↦ rw current (inl h)
        | inr newer ↦ rw newer (
            signalled-IsChecked a _ ((l, listed, (artifacts, e)), newer)
              (fallback a _ (attempt (nightly_url w u) a.head_sha s h)))
      ]

  listing-IsChecked :
      (o : Option Listing) (s : State)
      → w.listing ≡ o
      → IsRunning running s
      → IsChecked w u running (check_listing w u o s)
  listing-IsChecked none s e h = inl h
  listing-IsChecked (some l) s e h = elim (Bool-cases (l.total_count == 0)) [
    | inl empty ↦ rw empty (inl h)
    | inr found ↦ rw found (artifacts-IsChecked l l.artifacts s e refl h)
  ]

-- If the last rename of a replacement never fails, a check of the develop channel ends in one of
-- two ways: the binary that ran is in place and no restart is signalled, or the restart is signalled
-- and a new binary is in place. Then the first artifact that is listed does not agree with the
-- commit that runs in seven digits, and what the binary reports as its version holds the first seven
-- digits of the listed commit; exempt are a listed commit that is empty, and a binary that does not
-- report.
pub check_develop_outcome :
    (w : World) (u : Updater) (running : Bytes) (s : State)
    → Restores w
    → s.disk.exe ≡ some running
    → s.signal ≡ Signal.waiting
    → IsChecked w u running (check_develop w u s)
unfolding check_develop
check_develop_outcome w u running s restores there quiet =
    listing-IsChecked w restores u running w.listing (request (api_url w u) u.token s) refl
      (there, quiet)
