-- ===== src/Updater/Requests.antt =====
-- Which servers `checkDevelop` of internal/updater/updater.go sends the token to.
use mdbapi.Base.{
  ◌≡◌, refl, ap, ◌∙◌, Bool, true, false, Option, none, some, List, [], ◌∷◌, ◌++◌, ◌==◌,
  append_assoc, is_nil, Bool-cases, inl, inr,
}
use mdbapi.Strings.{Bytes}
use mdbapi.Updater.Develop.{
  Artifact, Listing, Archive, World, Updater, State, request, candidates, extract_first,
  is_verified, apply_binary, apply_archive, download_and_verify, api_url, nightly_url, is_current,
  signalled, or_fallback, update_to, check_artifacts, check_listing, check_develop,
}

-- `s'` has the requests of `s`, the one given, and more
abbrev pub Continues : State → Bytes × Bytes → State → Type 0
Continues s req s' = (rest : List (Bytes × Bytes)) × (s'.requests ≡ s.requests ++ req ∷ rest)

apply_requests :
    (w : World) (u : Updater) (url expected : Bytes) (o : Option Archive) (s : State)
    → (apply_archive w u url expected o s).1.requests ≡ s.requests
apply_requests w u url expected none s = refl
apply_requests w u url expected (some zip) s = binary (extract_first zip (candidates u))
  where
    binary : (o : Option Bytes) → (apply_binary w url expected o s).1.requests ≡ s.requests
    binary none = refl
    binary (some new) = elim (Bool-cases (is_verified w expected new)) [
      | inl good ↦ rw good
      | inr bad ↦ rw bad
    ]

download_requests :
    (w : World) (u : Updater) (url expected : Bytes) (s : State)
    → (download_and_verify w u url expected s).1.requests ≡ s.requests ++ (url, u.token) ∷ []
unfolding download_and_verify
download_requests w u url expected s =
    apply_requests w u url expected (w.download url) (request url u.token s)

fallback_requests :
    (w : World) (u : Updater) (a : Artifact) (r : Bool × State) (s : State) (req : Bytes × Bytes)
    → Continues s req r.1
    → Continues s req (or_fallback w u a r).1
fallback_requests w u a (true, s') s req h = h
fallback_requests w u a (false, s') s req (rest, e) = elim (Bool-cases (is_nil u.token)) [
  | inl no_token ↦ rw no_token (rest, e)
  | inr token ↦ rw token (
    rest ++ (a.archive_download_url, u.token) ∷ [],
    download_requests w u a.archive_download_url a.head_sha s'
        ∙ ap (λ (l : List (Bytes × Bytes)). l ++ (a.archive_download_url, u.token) ∷ []) e
        ∙ append_assoc s.requests (req ∷ rest) _,
  )
]

signalled_requests : (r : Bool × State) → (signalled r).requests ≡ r.1.requests
signalled_requests (true, s) = refl
signalled_requests (false, s) = refl

module _ (w : World) (u : Updater) (a : Artifact) (start : State) where
  abbrev NightlyNext : State → Type 0
  NightlyNext = Continues start (nightly_url w u, u.token)

  update_requests : NightlyNext (update_to w u a start)
  unfolding update_to
  update_requests =
      let tried = download_and_verify w u (nightly_url w u) a.head_sha start in
      let (rest, e) =
        fallback_requests w u a tried start (nightly_url w u, u.token)
          ([], download_requests w u (nightly_url w u) a.head_sha start) in
      (rest, signalled_requests (or_fallback w u a tried) ∙ e)

  artifacts_requests :
      (artifacts others : List Artifact)
      → artifacts ≡ a ∷ others
      → is_current a.head_sha u.current_commit ≡ false
      → NightlyNext (check_artifacts w u artifacts start)
  artifacts_requests [] others e newer = absurd (cc)
  artifacts_requests (b ∷ artifacts) others e newer =
      let same : b ≡ a = cc in rw (same, newer) update_requests

  listing_requests :
      (o : Option Listing) (l : Listing) (others : List Artifact)
      → o ≡ some l
      → l.artifacts ≡ a ∷ others
      → (l.total_count == 0) ≡ false
      → is_current a.head_sha u.current_commit ≡ false
      → NightlyNext (check_listing w u o start)
  listing_requests none l others e first counted newer = absurd (cc)
  listing_requests (some k) l others e first counted newer =
      let same : k ≡ l = cc in
      rw (same, counted) (artifacts_requests l.artifacts others first newer)

-- When the first artifact of the list is of another commit than the running one, the request after
-- the one to the GitHub API goes to nightly.link, with the same token.
pub nightly_gets_token :
    (w : World) (u : Updater) (l : Listing) (a : Artifact) (others : List Artifact) (s : State)
    → w.listing ≡ some l
    → l.artifacts ≡ a ∷ others
    → (l.total_count == 0) ≡ false
    → is_current a.head_sha u.current_commit ≡ false
    → Continues (request (api_url w u) u.token s) (nightly_url w u, u.token) (check_develop w u s)
unfolding check_develop
nightly_gets_token w u l a others s listed first counted newer =
    listing_requests w u a (request (api_url w u) u.token s) w.listing l others listed first counted
      newer
