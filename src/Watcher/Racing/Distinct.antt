-- ===== src/Watcher/Racing/Distinct.antt =====
-- The aliases that the two goroutines of internal/watcher/watcher.go make together.
use mdbapi.Base.{
  ◌≡◌, ◌⊎◌, ◌∙◌, refl, sym, ap, true, false, Option, none, some, List, [], ◌∷◌, ◌++◌, any, All,
  All-append, arith, Bool-cases, inl, inr,
}
use mdbapi.Strings.{Bytes, str_eq, str_eq_iff, to_lower, lower_byte, equal_fold}
use mdbapi.Mdb.Errors.{Result, ok, err, Result-cases}
use mdbapi.Mdb.Pool.{DbConfig}
use mdbapi.Config.Glob.{FilePath, alias_from_path, path_matches_glob}
use mdbapi.Config.Glob.Alias.{IsSafe, alias_from_path-IsSafe}
use mdbapi.Watcher.{Registrar, RegistrarLaws, GlobEntry, is_access_file, answered}
use mdbapi.Watcher.Adding.{FoldDistinct, FoldDistinct-append}
use mdbapi.Watcher.Racing.{
  fresh, candidate, look, act, Shared, Steps, begin, poller_looks, poller_acts, notifier_looks,
  notifier_acts,
}

abbrev IsLower : Bytes → Type 0
IsLower s = to_lower s ≡ s

IsSafe-IsLower : (s : Bytes) → All IsSafe s → IsLower s
IsSafe-IsLower [] h = refl
IsSafe-IsLower (c ∷ s) (hc, h) =
    let e : lower_byte c ≡ c = ground (arith, hc) in rw (e, IsSafe-IsLower s h)

-- an alias in small letters is equal, or not even equal in another case
equal_fold-IsLower : (a b : Bytes) → IsLower a → IsLower b → equal_fold a b ≡ true → a ≡ b
unfolding equal_fold
equal_fold-IsLower a b ha hb h =
    let e = (str_eq_iff (to_lower a) (to_lower b)).0 h in sym ha ∙ e ∙ hb

-- what a goroutine has checked still holds, but for the very same alias
abbrev Waits : List Bytes → Option DbConfig → Type 0
Waits names none = Unit
Waits names (some cfg) =
    IsLower cfg.alias × All (λ b. equal_fold b cfg.alias ≡ true → b ≡ cfg.alias) names

unlisted-All :
    (alias : Bytes) (names : List Bytes)
    → any (λ a. equal_fold a alias) names ≡ false
    → All (λ b. equal_fold b alias ≡ true → b ≡ alias) names
unlisted-All alias [] h = tt
unlisted-All alias (a ∷ names) h =
    let no : equal_fold a alias ≡ false = ground (arith, h) in
    (λ same. absurd (cc (no, same)), unlisted-All alias names (ground (arith, h)))

All-unlisted :
    (alias : Bytes) (names : List Bytes)
    → All (λ b. equal_fold b alias ≡ true → b ≡ alias) names
    → any (λ a. str_eq a alias) names ≡ false
    → any (λ a. equal_fold a alias) names ≡ false
All-unlisted alias [] h new = refl
All-unlisted alias (a ∷ names) (ha, h) new =
    let no : str_eq a alias ≡ false = ground (arith, new) in
    let rest = All-unlisted alias names h (ground (arith, new)) in
    elim (Bool-cases (equal_fold a alias)) [
      | inl same ↦ absurd (cc (no, (str_eq_iff a alias).1 (ha same)))
      | inr fold ↦ rw (fold, rest)
    ]

fresh-Waits :
    (path : Bytes) (r : Result Bytes) (names : List Bytes)
    → ((alias : Bytes) → r ≡ ok alias → IsLower alias)
    → Waits names (fresh path r names)
fresh-Waits path (err e) names lower = tt
fresh-Waits path (ok alias) names lower =
    elim (Bool-cases (any (λ existing. equal_fold existing alias) names)) [
      | inl old ↦ rw old tt
      | inr new ↦ rw new (lower alias refl, unlisted-All alias names new)
    ]

candidate-Waits :
    (fp : FilePath) (gs : List GlobEntry) (path : Bytes) (names : List Bytes)
    → Waits names (candidate fp gs path names)
unfolding candidate
candidate-Waits fp [] path names = tt
candidate-Waits fp (g ∷ gs) path names = elim (Bool-cases (path_matches_glob fp g.pattern path)) [
  | inl hit ↦ rw hit (
      fresh-Waits path (alias_from_path fp g.base path) names
        (λ alias h. IsSafe-IsLower alias (alias_from_path-IsSafe fp g.base path alias h)))
  | inr miss ↦ rw miss (candidate-Waits fp gs path names)
]

-- the list after a registration
abbrev Extends : List Bytes → List Bytes → Type 0
Extends names names' = (names' ≡ names) ⊎ ((a : Bytes) × IsLower a × (names' ≡ names ++ a ∷ []))

Waits-Extends :
    (names names' : List Bytes) (o : Option DbConfig)
    → Extends names names'
    → Waits names o
    → Waits names' o
Waits-Extends names names' none e h = tt
Waits-Extends names names' (some cfg) (inl same) h = rw same h
Waits-Extends names names' (some cfg) (inr (a, lower, longer)) (hl, h) = rw longer (
  hl,
  All-append (λ b. equal_fold b cfg.alias ≡ true → b ≡ cfg.alias) names (a ∷ []) h
      (λ fold. equal_fold-IsLower a cfg.alias lower hl fold, tt),
)

module _ {ℓ} {S : Type ℓ} (reg : Registrar S) (laws : RegistrarLaws reg) (fp : FilePath) where
  look-Waits :
      (globs : List GlobEntry) (path : Bytes) (s : S)
      → Waits (reg.aliases s) (look reg fp globs path s)
  unfolding look
  look-Waits globs path s = elim (Bool-cases (is_access_file (fp.clean path))) [
    | inl access ↦ rw access (candidate-Waits fp globs (fp.clean path) (reg.aliases s))
    | inr other ↦ rw other tt
  ]

  answered_state : (s : S) (r : Result (Unit {0}) × S) → (answered reg fp s r).1 ≡ r.1
  answered_state s (ok u, s') = refl
  answered_state s (err e, s') = refl

  -- what a registration does to the registrar
  abbrev Acted : S → S → Type 0
  Acted s s' =
      laws.IsGood s' × FoldDistinct (reg.aliases s') × Extends (reg.aliases s) (reg.aliases s')

  register-Acted :
      (cfg : DbConfig) (s : S)
      → laws.IsGood s
      → FoldDistinct (reg.aliases s)
      → Waits (reg.aliases s) (some cfg)
      → Acted s (reg.register cfg s).1
  register-Acted cfg s v d (lower, only) =
      elim (Bool-cases (any (λ a. str_eq a cfg.alias) (reg.aliases s))) [
        | inl listed ↦ let e = laws.relists cfg s listed in (laws.keeps cfg s v, rw e d, inl e)
        | inr new ↦ elim (Result-cases (reg.register cfg s).0) [
          | inl (u, done) ↦
              let e = laws.adds cfg s v new done in
              let free = All-unlisted cfg.alias (reg.aliases s) only new in
              (
                laws.keeps cfg s v,
                rw e (FoldDistinct-append (reg.aliases s) cfg.alias d free),
                inr (cfg.alias, lower, e),
              )
          | inr (x, failed) ↦
              let e = laws.fails cfg s x failed in
              (laws.keeps cfg s v, rw e d, inl (ap reg.aliases e))
        ]
      ]

  act-Acted :
      (o : Option DbConfig) (s : S)
      → laws.IsGood s
      → FoldDistinct (reg.aliases s)
      → Waits (reg.aliases s) o
      → Acted s (act reg fp o s).1
  act-Acted none s v d h = (v, d, inl refl)
  act-Acted (some cfg) s v d h =
      rw (answered_state s (reg.register cfg s)) (register-Acted cfg s v d h)

  -- the invariant of the two goroutines
  pub record IsOrderly (w : Shared S) : Type 0 where
    pub good : laws.IsGood w.registry
    pub distinct : FoldDistinct (reg.aliases w.registry)
    pub poller : Waits (reg.aliases w.registry) w.poller
    pub notifier : Waits (reg.aliases w.registry) w.notifier

  -- However the calls of the poll loop and of the file events interleave between their reading of
  -- the aliases and their registration, no two aliases come to differ in case only, and the
  -- registrar stays well-formed, if both hold at the start.
  pub Steps-IsOrderly :
      (globs : List GlobEntry) (w v : Shared S) → IsOrderly w → Steps reg fp globs w v → IsOrderly v
  Steps-IsOrderly globs w _ h begin = h
  Steps-IsOrderly globs w _ h (poller_looks {v} path steps idle) =
      let i = Steps-IsOrderly globs w v h steps in
      record {
        good = i.good;
        distinct = i.distinct;
        poller = look-Waits globs path v.registry;
        notifier = i.notifier;
      }
  Steps-IsOrderly globs w _ h (notifier_looks {v} path steps idle) =
      let i = Steps-IsOrderly globs w v h steps in
      record {
        good = i.good;
        distinct = i.distinct;
        poller = i.poller;
        notifier = look-Waits globs path v.registry;
      }
  Steps-IsOrderly globs w _ h (poller_acts {v} steps) =
      let i = Steps-IsOrderly globs w v h steps in
      let (good, distinct, longer) = act-Acted v.poller v.registry i.good i.distinct i.poller in
      record {
        good = good;
        distinct = distinct;
        poller = tt;
        notifier = Waits-Extends (reg.aliases v.registry) _ v.notifier longer i.notifier;
      }
  Steps-IsOrderly globs w _ h (notifier_acts {v} steps) =
      let i = Steps-IsOrderly globs w v h steps in
      let (good, distinct, longer) = act-Acted v.notifier v.registry i.good i.distinct i.notifier in
      record {
        good = good;
        distinct = distinct;
        poller = Waits-Extends (reg.aliases v.registry) _ v.poller longer i.poller;
        notifier = tt;
      }
