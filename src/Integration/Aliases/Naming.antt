-- ===== src/Integration/Aliases/Naming.antt =====
-- The aliases that `makeDBConfigs` of cmd/integration/main.go gives.
use mdbapi.Base.{
  ℕ, ◌+◌, ◌≡◌, refl, ap, Bool, false, Option, none, some, List, [], ◌∷◌, ◌++◌, map, arith, All,
  All-append, length, length-append, is_nil, Bool-cases, inl, inr, ◌&&◌,
}
use mdbapi.Base.Assoc.{lookup, insert}
use mdbapi.Strings.{
  Bytes, codes, str_eq, str_eq_iff, bytes_eq, trim_left, trim_right, to_lower, trim_space,
  trim_suffix,
}
use mdbapi.Strings.Decimal.{itoa, itoa-IsDigit, IsDigit}
use mdbapi.Mdb.Pool.{DbConfig}
use mdbapi.Config.Glob.{FilePath, ext}
use mdbapi.Config.Glob.Alias.{IsSafe, safe_runes-IsSafe}
use mdbapi.Integration.Aliases.{
  Used, is_underscore, sanitize_alias, or_db, base_alias, numbered, count_up, config_at, make_from,
  make_db_configs,
}

All-trim_left : (p : ℕ → Bool) (s : Bytes) → All IsSafe s → All IsSafe (trim_left p s)
unfolding trim_left
All-trim_left p [] h = h
All-trim_left p (c ∷ s) (h, hs) = elim (Bool-cases (p c)) [
  | inl e ↦ rw e (All-trim_left p s hs)
  | inr e ↦ rw e (h, hs)
]

All-trim_right : (p : ℕ → Bool) (s : Bytes) → All IsSafe s → All IsSafe (trim_right p s)
unfolding trim_right
All-trim_right p [] h = h
All-trim_right p (c ∷ s) (h, hs) = elim (Bool-cases (is_nil (trim_right p s) && p c)) [
  | inl e ↦ rw e tt
  | inr e ↦ rw e (h, All-trim_right p s hs)
]

-- an alias that the API can route: bytes of a-z, 0-9, _ and -, at least one
abbrev pub IsAlias : Bytes → Type 0
IsAlias s = (is_nil s ≡ false) × All IsSafe s

or_db-IsAlias : (s : Bytes) → All IsSafe s → IsAlias (or_db s)
or_db-IsAlias [] h = (refl, (refl, (refl, tt)))
or_db-IsAlias (c ∷ s) h = (refl, h)

base_alias-IsAlias : (fp : FilePath) (p : Bytes) → IsAlias (base_alias fp p)
unfolding base_alias sanitize_alias
base_alias-IsAlias fp p = or_db-IsAlias _ (
    All-trim_right is_underscore _ (
      All-trim_left is_underscore _
        (safe_runes-IsSafe 0 (to_lower (trim_space (trim_suffix (fp.base p) (ext p)))))))

digits-IsSafe : (s : Bytes) → All IsDigit s → All IsSafe s
digits-IsSafe [] h = tt
digits-IsSafe (c ∷ s) (h, hs) = (ground arith, digits-IsSafe s hs)

numbered-IsAlias : (alias : Bytes) (n : Option ℕ) → IsAlias alias → IsAlias (numbered alias n)
numbered-IsAlias alias none h = h
numbered-IsAlias [] (some n) (h, hs) = absurd (cc)
numbered-IsAlias (c ∷ s) (some n) (h, hs) = (
  refl,
  All-append IsSafe (c ∷ s) _ hs (refl, digits-IsSafe (itoa (n + 1)) (itoa-IsDigit (n + 1))),
)

make_from-IsAlias :
    (fp : FilePath) (used : Used) (paths : List Bytes)
    → All (λ (d : DbConfig). IsAlias d.alias) (make_from fp used paths)
      × (map (λ (d : DbConfig). d.path) (make_from fp used paths) ≡ paths)
unfolding make_from
make_from-IsAlias fp used [] = (tt, refl)
make_from-IsAlias fp used (p ∷ ps) =
    let n = lookup (base_alias fp p) used in
    let (good, same) = make_from-IsAlias fp (insert (base_alias fp p) (count_up n) used) ps in
    (
      (numbered-IsAlias (base_alias fp p) n (base_alias-IsAlias fp p), good),
      ap (λ (l : List Bytes). p ∷ l) same,
    )

-- Each path gets one entry, in order, whose alias is not empty and has only the bytes a-z, 0-9, _
-- and -, so that it can stand in a route.
pub make_db_configs-IsAlias :
    (fp : FilePath) (paths : List Bytes)
    → All (λ (d : DbConfig). IsAlias d.alias) (make_db_configs fp paths)
      × (map (λ (d : DbConfig). d.path) (make_db_configs fp paths) ≡ paths)
unfolding make_db_configs
make_db_configs-IsAlias fp paths = make_from-IsAlias fp [] paths

longer-ne : (a : Bytes) (c : ℕ) (s : Bytes) → str_eq a (a ++ c ∷ s) ≡ false
longer-ne a c s = elim (Bool-cases (str_eq a (a ++ c ∷ s))) [
  | inr e ↦ e
  | inl e ↦
      let same = ap (λ (l : Bytes). length l) ((str_eq_iff a (a ++ c ∷ s)).0 e) in
      absurd (omega (arith, same, length-append {0} a (c ∷ s)))
]

-- Two files of one name, and a third that is named like the number of the second, get the same
-- alias for the second and the third: the numbers are not told apart from the names.
pub make_db_configs_collide :
    (fp : FilePath) (p q r a : Bytes)
    → base_alias fp p ≡ a
    → base_alias fp q ≡ a
    → base_alias fp r ≡ a ++ codes "_2"
    → make_db_configs fp (p ∷ q ∷ r ∷ [])
      ≡ config_at a p ∷ config_at (a ++ codes "_2") q ∷ config_at (a ++ codes "_2") r ∷ []
unfolding make_db_configs make_from lookup insert itoa
make_db_configs_collide fp p q r a hp hq hr =
    rw (hp, hq, hr, (str_eq_iff a a).1 refl, longer-ne a b'_' (codes "2"))
