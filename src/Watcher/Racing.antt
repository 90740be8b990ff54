-- ===== src/Watcher/Racing.antt =====
-- The two goroutines that `Run` of internal/watcher/watcher.go starts: the poll loop and
-- `fsnotifyLoop`. Each calls `tryRegister`, which reads the aliases and then registers, so the other
-- one may come in between.
pub mod Distinct
use mdbapi.Base.{
  ◌≡◌, refl, Bool, true, false, Option, none, some, List, [], ◌∷◌, if◌then◌else◌, any, Bool-cases,
  inl, inr,
}
use mdbapi.Strings.{Bytes, equal_fold}
use mdbapi.Mdb.Errors.{Result, ok, err}
use mdbapi.Mdb.Pool.{DbConfig}
use mdbapi.Config.Glob.{FilePath, alias_from_path, path_matches_glob}
use mdbapi.Watcher.{
  Registrar, GlobEntry, is_access_file, answered, register_alias, try_globs, try_register,
}

-- the configuration that is going to be registered, if the alias is not listed
abbrev pub fresh : Bytes → Result Bytes → List Bytes → Option DbConfig
fresh path (err e) names = none
fresh path (ok alias) names =
    if any (λ existing. equal_fold existing alias) names
    then none
    else some (record { alias = alias; path = path; driver = [] })

unfoldable pub candidate : FilePath → List GlobEntry → Bytes → List Bytes → Option DbConfig
candidate fp [] path names = none
candidate fp (g ∷ gs) path names =
    let rest = candidate fp gs path names in
    if path_matches_glob fp g.pattern path
    then fresh path (alias_from_path fp g.base path) names
    else rest

module _ {ℓ} {S : Type ℓ} (reg : Registrar S) (fp : FilePath) where
  -- tryRegister up to the call of Register
  unfoldable pub look : List GlobEntry → Bytes → S → Option DbConfig
  look globs raw_path s =
      let path = fp.clean raw_path in
      if is_access_file path then candidate fp globs path (reg.aliases s) else none

  -- and from there on
  abbrev pub act : Option DbConfig → S → Bool × S
  act none s = (false, s)
  act (some cfg) s = answered reg fp s (reg.register cfg s)

  fresh-act :
      (path : Bytes) (r : Result Bytes) (s : S)
      → register_alias reg fp path r s ≡ act (fresh path r (reg.aliases s)) s
  fresh-act path (err e) s = refl
  fresh-act path (ok alias) s =
      elim (Bool-cases (any (λ existing. equal_fold existing alias) (reg.aliases s))) [
        | inl old ↦ rw old
        | inr new ↦ rw new
      ]

  candidate-act :
      (gs : List GlobEntry) (path : Bytes) (s : S)
      → try_globs reg fp gs path s ≡ act (candidate fp gs path (reg.aliases s)) s
  unfolding try_globs candidate
  candidate-act [] path s = refl
  candidate-act (g ∷ gs) path s = elim (Bool-cases (path_matches_glob fp g.pattern path)) [
    | inl hit ↦ rw hit (fresh-act path (alias_from_path fp g.base path) s)
    | inr miss ↦ rw miss (candidate-act gs path s)
  ]

  -- The two parts, one behind the other, are `tryRegister`.
  pub try_register-act :
      (globs : List GlobEntry) (path : Bytes) (s : S)
      → try_register reg fp globs path s ≡ act (look globs path s) s
  unfolding try_register look
  try_register-act globs path s = elim (Bool-cases (is_access_file (fp.clean path))) [
    | inl access ↦ rw access (candidate-act globs (fp.clean path) s)
    | inr other ↦ rw other
  ]

-- the registrar, and what each goroutine is going to register
pub record Shared {ℓ} (S : Type ℓ) : Type ℓ where
  pub registry : S
  pub poller : Option DbConfig
  pub notifier : Option DbConfig

-- the interleavings of the two
pub data Steps {ℓ} {S : Type ℓ} (reg : Registrar S) (fp : FilePath) (globs : List GlobEntry)
    (w : Shared S) : Shared S → Type ℓ where
  begin : Steps reg fp globs w w
  poller_looks :
      {v : Shared S} (path : Bytes)
      → Steps reg fp globs w v
      → v.poller ≡ none
      → Steps reg fp globs w (record v { poller = look reg fp globs path v.registry })
  poller_acts :
      {v : Shared S}
      → Steps reg fp globs w v
      → Steps reg fp globs w
          (record v { registry = (act reg fp v.poller v.registry).1; poller = none })
  notifier_looks :
      {v : Shared S} (path : Bytes)
      → Steps reg fp globs w v
      → v.notifier ≡ none
      → Steps reg fp globs w (record v { notifier = look reg fp globs path v.registry })
  notifier_acts :
      {v : Shared S}
      → Steps reg fp globs w v
      → Steps reg fp globs w
          (record v { registry = (act reg fp v.notifier v.registry).1; notifier = none })
