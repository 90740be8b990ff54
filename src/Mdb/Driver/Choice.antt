-- ===== src/Mdb/Driver/Choice.antt =====
-- The drivers that `installedAccessDrivers` of internal/mdb/driver_windows.go returns.
use mdbapi.Base.{
  ◌≡◌, ◌≢◌, refl, Bool, true, not, Option, none, some, List, [], ◌∷◌, All, All-append, Bool-cases,
  inl, inr,
}
use mdbapi.Strings.{Bytes, codes, contains, running_strings}
use mdbapi.Mdb.Driver.{
  member, keep, mdb_drivers, ordered, or_preferred, preferred_access_drivers,
  installed_access_drivers,
}

abbrev pub IsMdb : Bytes → Type 0
IsMdb d = contains d (codes ".mdb") ≡ true

keep-All : (p : Bytes → Bool) (ds : List Bytes) → All (λ d. p d ≡ true) (keep p ds)
unfolding keep
keep-All p [] = tt
keep-All p (d ∷ ds) = elim (Bool-cases (p d)) [
  | inl e ↦ rw e (e, keep-All p ds)
  | inr e ↦ rw e (keep-All p ds)
]

All-keep : (P : Bytes → Type 0) (p : Bytes → Bool) (ds : List Bytes) → All P ds → All P (keep p ds)
unfolding keep
All-keep P p [] h = tt
All-keep P p (d ∷ ds) (hd, hds) = elim (Bool-cases (p d)) [
  | inl e ↦ rw e (hd, All-keep P p ds hds)
  | inr e ↦ rw e (All-keep P p ds hds)
]

preferred-IsMdb : All IsMdb preferred_access_drivers
unfolding running_strings
preferred-IsMdb = (refl, (refl, tt))

or_preferred_laws :
    (ds : List Bytes) → All IsMdb ds → (or_preferred ds ≢ []) × All IsMdb (or_preferred ds)
or_preferred_laws [] h = (λ e. cc, preferred-IsMdb)
or_preferred_laws (d ∷ ds) h = (λ e. cc, h)

-- Whatever the registry holds, readable or not, there is a driver to try, and every driver is one
-- for .mdb files.
pub installed_access_drivers_laws :
    (registry : Option (List Bytes))
    → (installed_access_drivers registry ≢ []) × All IsMdb (installed_access_drivers registry)
unfolding installed_access_drivers
installed_access_drivers_laws none = (λ e. cc, preferred-IsMdb)
installed_access_drivers_laws (some names) = or_preferred_laws (ordered (mdb_drivers names)) (
    unfold ordered mdb_drivers in
    All-append IsMdb _ _
      (All-keep IsMdb (λ d. member d (mdb_drivers names)) preferred_access_drivers preferred-IsMdb)
      (All-keep IsMdb (λ d. not (member d preferred_access_drivers)) (mdb_drivers names)
        (keep-All (λ n. contains n (codes ".mdb")) names)))
