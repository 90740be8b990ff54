-- ===== src/Config/Expand/Distinct.antt =====
-- The aliases that `expandGlobs` of internal/config/glob.go gives to the pool.
use mdbapi.Base.{
  ◌≡◌, refl, ap, sym, true, false, List, [], ◌∷◌, ◌++◌, map, arith, is_nil, is_some, All,
  All-append, Bool-cases, inl, inr,
}
use mdbapi.Base.Assoc.{lookup, insert, lookup-insert}
use mdbapi.Strings.{Bytes, str_eq, str_eq_iff, bytes_eq, to_lower}
use mdbapi.Mdb.Errors.{Result, ok, err, wrapping, glob_pattern, glob_alias}
use mdbapi.Mdb.Pool.Closing.{Fresh, DistinctAliases}
use mdbapi.Config.{DatabaseConfig}
use mdbapi.Config.Glob.{FilePath, match_glob, glob_base, alias_from_path}
use mdbapi.Config.Expand.{
  Expansion, admit, matched, after, add_matches, expand_entry, expand_entries, expand_globs,
  db_config,
}

abbrev Seen : List (Bytes × Bytes) → DatabaseConfig → Type 0
Seen seen d = is_some (lookup (to_lower d.alias) seen) ≡ true

-- every entry is seen, and no two have one alias
record IsResolved (x : Expansion) : Type 0 where
  distinct : DistinctAliases (map db_config x.result)
  all_seen : All (Seen x.seen) x.result

Fresh-append :
    (a : Bytes) (ds : List DatabaseConfig) (d : DatabaseConfig)
    → Fresh a (map db_config ds)
    → str_eq d.alias a ≡ false
    → Fresh a (map db_config (ds ++ d ∷ []))
Fresh-append a [] d h ne = (ne, tt)
Fresh-append a (e ∷ ds) d (he, h) ne = (he, Fresh-append a ds d h ne)

DistinctAliases-append :
    (ds : List DatabaseConfig) (d : DatabaseConfig)
    → DistinctAliases (map db_config ds)
    → All (λ e. str_eq d.alias e.alias ≡ false) ds
    → DistinctAliases (map db_config (ds ++ d ∷ []))
DistinctAliases-append [] d h k = (tt, tt)
DistinctAliases-append (e ∷ ds) d (fresh, h) (ke, k) =
    (Fresh-append e.alias ds d fresh ke, DistinctAliases-append ds d h k)

-- an alias that was not seen differs from all that were
unseen_ne :
    (seen : List (Bytes × Bytes)) (d : DatabaseConfig) (ds : List DatabaseConfig)
    → is_some (lookup (to_lower d.alias) seen) ≡ false
    → All (Seen seen) ds
    → All (λ e. str_eq d.alias e.alias ≡ false) ds
unseen_ne seen d [] new h = tt
unseen_ne seen d (e ∷ ds) new (he, h) = (
  elim (Bool-cases (str_eq d.alias e.alias)) [
    | inr ne ↦ ne
    | inl eq ↦
        let same =
          ap (λ a. is_some (lookup (to_lower a) seen)) ((str_eq_iff d.alias e.alias).0 eq) in
        absurd (cc)
  ],
  unseen_ne seen d ds new h,
)

Seen-insert :
    (seen : List (Bytes × Bytes)) (key path : Bytes) (ds : List DatabaseConfig)
    → All (Seen seen) ds
    → All (Seen (insert key path seen)) ds
Seen-insert seen key path [] h = tt
Seen-insert seen key path (d ∷ ds) (hd, h) =
    (ground (arith, lookup-insert key (to_lower d.alias) path seen), Seen-insert seen key path ds h)

admit-IsResolved : (d : DatabaseConfig) (x : Expansion) → IsResolved x → IsResolved (admit d x)
unfolding admit
admit-IsResolved d x v = elim (Bool-cases (is_some (lookup (to_lower d.alias) x.seen))) [
  | inl old ↦ rw old v
  | inr new ↦ rw new (record {
    distinct =
        DistinctAliases-append x.result d v.distinct (unseen_ne x.seen d x.result new v.all_seen);
    all_seen =
        All-append (Seen (insert (to_lower d.alias) d.path x.seen)) x.result (d ∷ [])
          (Seen-insert x.seen (to_lower d.alias) d.path x.result v.all_seen)
          (
            ground (
              arith,
              lookup-insert (to_lower d.alias) (to_lower d.alias) d.path x.seen,
              str_eq_iff (to_lower d.alias) (to_lower d.alias),
            ),
            tt,
          );
  })
]

-- what a step that returns gives is resolved
abbrev GivesResolved : Result Expansion → Type 0
GivesResolved r = (y : Expansion) → r ≡ ok y → IsResolved y

ok-GivesResolved : (x : Expansion) → IsResolved x → GivesResolved (ok x)
ok-GivesResolved x v y e = let same : y ≡ x = cc in rw same v

after-GivesResolved {ℓ} :
    {A : Type ℓ} (r : Result A) (f : A → Result Expansion)
    → ((a : A) → r ≡ ok a → GivesResolved (f a))
    → GivesResolved (after r f)
after-GivesResolved (ok a) f h y e = h a refl y e
after-GivesResolved (err x) f h y e = absurd (cc)

add_matches-IsResolved :
    (fp : FilePath) (pattern : Bytes) (paths : List Bytes) (x : Expansion)
    → IsResolved x
    → GivesResolved (add_matches fp pattern paths x)
unfolding add_matches
add_matches-IsResolved fp pattern [] x v = ok-GivesResolved x v
add_matches-IsResolved fp pattern (path ∷ paths) x v =
    after-GivesResolved
      (wrapping (glob_alias pattern path) (alias_from_path fp (glob_base fp pattern) path))
      (λ alias. add_matches fp pattern paths (admit (matched alias path) x))
      (λ alias e.
        add_matches-IsResolved fp pattern paths (admit (matched alias path) x)
          (admit-IsResolved (matched alias path) x v))

expand_entry-IsResolved :
    (fp : FilePath) (d : DatabaseConfig) (x : Expansion)
    → IsResolved x
    → GivesResolved (expand_entry fp d x)
unfolding expand_entry
expand_entry-IsResolved fp d x v = elim (Bool-cases (is_nil d.glob)) [
  | inl explicit ↦ rw explicit (ok-GivesResolved (admit d x) (admit-IsResolved d x v))
  | inr glob ↦ rw glob (
      after-GivesResolved (wrapping (glob_pattern d.glob) (match_glob fp d.glob))
        (λ paths. add_matches fp d.glob paths x)
        (λ paths e. add_matches-IsResolved fp d.glob paths x v))
]

expand_entries-IsResolved :
    (fp : FilePath) (ds : List DatabaseConfig) (x : Expansion)
    → IsResolved x
    → GivesResolved (expand_entries fp ds x)
unfolding expand_entries
expand_entries-IsResolved fp [] x v = ok-GivesResolved x v
expand_entries-IsResolved fp (d ∷ ds) x v =
    after-GivesResolved (expand_entry fp d x) (λ y. expand_entries fp ds y)
      (λ y e. expand_entries-IsResolved fp ds y (expand_entry-IsResolved fp d x v y e))

-- The entries that a configuration expands to have distinct aliases, as `new_pool` needs them,
-- whatever files the patterns match and however the aliases of the configuration clash.
pub expand_globs-DistinctAliases :
    (fp : FilePath) (ds resolved : List DatabaseConfig)
    → expand_globs fp ds ≡ ok resolved
    → DistinctAliases (map db_config resolved)
unfolding expand_globs
expand_globs-DistinctAliases fp ds resolved h =
    result_of (expand_entries fp ds (record { seen = []; result = [] }))
      (expand_entries-IsResolved fp ds (record { seen = []; result = [] })
        (record { distinct = tt; all_seen = tt }))
      h
  where
    result_of :
        (r : Result Expansion)
        → GivesResolved r
        → after r (λ x. ok x.result) ≡ ok resolved
        → DistinctAliases (map db_config resolved)
    result_of (err e) give h = absurd (cc)
    result_of (ok x) give h = let e : x.result ≡ resolved = cc in rw (sym e) (give x refl).distinct
