-- ===== src/Watcher/Adding.antt =====
-- What a poll of internal/watcher/watcher.go adds to the registrar.
use mdbapi.Base.{
  ℕ, ◌+◌, ◌≡◌, refl, Bool, true, false, List, [], ◌∷◌, ◌++◌, any, All, All-append, length,
  length-append, arith, Bool-cases, inl, inr,
}
use mdbapi.Strings.{Bytes, str_eq, str_eq_iff, to_lower, equal_fold}
use mdbapi.Mdb.Errors.{Error, Result, ok, err}
use mdbapi.Mdb.Pool.{DbConfig}
use mdbapi.Config.Glob.{FilePath, alias_from_path, path_matches_glob, match_glob}
use mdbapi.Watcher.{
  Registrar, RegistrarLaws, GlobEntry, is_access_file, answered, register_alias, try_globs,
  try_register, count, try_all, try_matches, poll_globs, poll,
}

-- no two aliases that differ in case only
abbrev pub FoldDistinct : List Bytes → Type 0
FoldDistinct [] = Unit
FoldDistinct (a ∷ names) = All (λ b. equal_fold a b ≡ false) names × FoldDistinct names

pub equal_fold_refl : (s : Bytes) → equal_fold s s ≡ true
unfolding equal_fold
equal_fold_refl s = ground (arith, str_eq_iff (to_lower s) (to_lower s))

str_eq-unlisted :
    (alias : Bytes) (names : List Bytes)
    → any (λ a. equal_fold a alias) names ≡ false
    → any (λ a. str_eq a alias) names ≡ false
str_eq-unlisted alias [] h = refl
str_eq-unlisted alias (a ∷ names) h =
    ground (arith, h, str_eq_iff a alias, equal_fold_refl alias, str_eq-unlisted alias names)

pub FoldDistinct-append :
    (names : List Bytes) (alias : Bytes)
    → FoldDistinct names
    → any (λ a. equal_fold a alias) names ≡ false
    → FoldDistinct (names ++ alias ∷ [])
FoldDistinct-append [] alias h new = (tt, tt)
FoldDistinct-append (a ∷ names) alias (ha, h) new = (
  All-append (λ b. equal_fold a b ≡ false) names (alias ∷ []) ha (ground arith, tt),
  FoldDistinct-append names alias h (ground arith),
)

module _ {ℓ} {S : Type ℓ} (reg : Registrar S) (laws : RegistrarLaws reg) where
  -- `n` databases were added on the way to a state
  pub record Grows (s : S) (n : ℕ) (s' : S) : Type 0 where
    pub good : laws.IsGood s'
    pub distinct : FoldDistinct (reg.aliases s) → FoldDistinct (reg.aliases s')
    pub counted : length (reg.aliases s') ≡ length (reg.aliases s) + n

  pub Grows-none : (s : S) → laws.IsGood s → Grows s 0 s
  Grows-none s v = record { good = v; distinct = λ h. h; counted = omega arith }

  pub Grows-trans : {s s' s'' : S} {n m : ℕ} → Grows s n s' → Grows s' m s'' → Grows s (n + m) s''
  Grows-trans a b = record {
    good = b.good;
    distinct = λ h. b.distinct (a.distinct h);
    counted = omega (arith, a.counted, b.counted);
  }

module _ {ℓ} {S : Type ℓ} (reg : Registrar S) (laws : RegistrarLaws reg) (fp : FilePath) where
  Grows-step :
      {s s' s'' : S} (added : Bool) {n : ℕ}
      → Grows reg laws s (count reg fp added 0) s'
      → Grows reg laws s' n s''
      → Grows reg laws s (count reg fp added n) s''
  Grows-step true a b = record {
    good = b.good;
    distinct = λ h. b.distinct (a.distinct h);
    counted = omega (arith, a.counted, b.counted);
  }
  Grows-step false a b = record {
    good = b.good;
    distinct = λ h. b.distinct (a.distinct h);
    counted = omega (arith, a.counted, b.counted);
  }

  -- one try, by its result
  abbrev Tried : S → Bool × S → Type 0
  Tried s r = Grows reg laws s (count reg fp r.0 0) r.1

  answered-Tried :
      (s : S) (cfg : DbConfig) (r : Result (Unit {0}) × S)
      → any (λ a. equal_fold a cfg.alias) (reg.aliases s) ≡ false
      → laws.IsGood s
      → laws.IsGood r.1
      → ((e : Error) → r.0 ≡ err e → r.1 ≡ s)
      → (r.0 ≡ ok tt → reg.aliases r.1 ≡ reg.aliases s ++ cfg.alias ∷ [])
      → Tried s (answered reg fp s r)
  answered-Tried s cfg (ok u, s') new v v' fails adds =
      let e = adds refl in
      record {
        good = v';
        distinct = λ h. rw e (FoldDistinct-append (reg.aliases s) cfg.alias h new);
        counted = rw e (length-append (reg.aliases s) (cfg.alias ∷ []));
      }
  answered-Tried s cfg (err x, s') new v v' fails adds = rw (fails x refl) (Grows-none reg laws s v)

  register_alias-Tried :
      (s : S) (path : Bytes) (r : Result Bytes)
      → laws.IsGood s
      → Tried s (register_alias reg fp path r s)
  register_alias-Tried s path (err e) v = Grows-none reg laws s v
  register_alias-Tried s path (ok alias) v =
      let cfg : DbConfig = record { alias = alias; path = path; driver = [] } in
      elim (Bool-cases (any (λ existing. equal_fold existing alias) (reg.aliases s))) [
        | inl old ↦ rw old (Grows-none reg laws s v)
        | inr new ↦ rw new (
            answered-Tried s cfg (reg.register cfg s) new v (laws.keeps cfg s v) (laws.fails cfg s)
              (laws.adds cfg s v (str_eq-unlisted alias (reg.aliases s) new)))
      ]

  try_globs-Tried :
      (gs : List GlobEntry) (path : Bytes) (s : S)
      → laws.IsGood s
      → Tried s (try_globs reg fp gs path s)
  unfolding try_globs
  try_globs-Tried [] path s v = Grows-none reg laws s v
  try_globs-Tried (g ∷ gs) path s v = elim (Bool-cases (path_matches_glob fp g.pattern path)) [
    | inl hit ↦ rw hit (register_alias-Tried s path (alias_from_path fp g.base path) v)
    | inr miss ↦ rw miss (try_globs-Tried gs path s v)
  ]

  try_register-Tried :
      (gs : List GlobEntry) (path : Bytes) (s : S)
      → laws.IsGood s
      → Tried s (try_register reg fp gs path s)
  unfolding try_register
  try_register-Tried gs path s v = elim (Bool-cases (is_access_file (fp.clean path))) [
    | inl access ↦ rw access (try_globs-Tried gs (fp.clean path) s v)
    | inr other ↦ rw other (Grows-none reg laws s v)
  ]

  -- several tries, by their number and the state afterwards
  abbrev Polled : S → ℕ × S → Type 0
  Polled s r = Grows reg laws s r.0 r.1

  pub try_all-Polled :
      (gs : List GlobEntry) (paths : List Bytes) (s : S)
      → laws.IsGood s
      → Polled s (try_all reg fp gs paths s)
  unfolding try_all
  try_all-Polled gs [] s v = Grows-none reg laws s v
  try_all-Polled gs (path ∷ paths) s v =
      let first = try_register-Tried gs path s v in
      Grows-step (try_register reg fp gs path s).0 first
        (try_all-Polled gs paths (try_register reg fp gs path s).1 first.good)

  try_matches-Polled :
      (gs : List GlobEntry) (r : Result (List Bytes)) (s : S)
      → laws.IsGood s
      → Polled s (try_matches reg fp gs r s)
  try_matches-Polled gs (err e) s v = Grows-none reg laws s v
  try_matches-Polled gs (ok paths) s v = try_all-Polled gs paths s v

  poll_globs-Polled :
      (all gs : List GlobEntry) (s : S) → laws.IsGood s → Polled s (poll_globs reg fp all gs s)
  unfolding poll_globs
  poll_globs-Polled all [] s v = Grows-none reg laws s v
  poll_globs-Polled all (g ∷ gs) s v =
      let first = try_matches-Polled all (match_glob fp g.pattern) s v in
      Grows-trans reg laws first
        (poll_globs-Polled all gs (try_matches reg fp all (match_glob fp g.pattern) s).1 first.good)

  -- On a registrar that keeps its laws, the number that a poll returns is that of the aliases it
  -- added, and it never makes two aliases that differ in case only.
  pub poll-Grows :
      (gs : List GlobEntry) (s : S)
      → laws.IsGood s
      → Grows reg laws s (poll reg fp gs s).0 (poll reg fp gs s).1
  unfolding poll
  poll-Grows gs s v = poll_globs-Polled gs gs s v
