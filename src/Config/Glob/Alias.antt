-- ===== src/Config/Glob/Alias.antt =====
-- The aliases that `AliasFromPath` of internal/config/glob.go makes.
use mdbapi.Base.{ℕ, zero, suc, ◌≡◌, refl, true, [], ◌∷◌, All, Bool-cases, inl, inr}
use mdbapi.Strings.{Bytes, to_lower, trim_suffix}
use mdbapi.Mdb.Errors.{Result, ok, err}
use mdbapi.Config.Glob.{
  FilePath, in_alias, rune_rest, safe_runes, underscored, alias_of, alias_from_path, ext,
}

-- a byte of [a-z0-9_-]
abbrev pub IsSafe : ℕ → Type 0
IsSafe c = in_alias c ≡ true

pub safe_runes-IsSafe : (skip : ℕ) (s : Bytes) → All IsSafe (safe_runes skip s)
unfolding safe_runes
safe_runes-IsSafe skip [] = tt
safe_runes-IsSafe (suc skip) (c ∷ s) = safe_runes-IsSafe skip s
safe_runes-IsSafe zero (c ∷ s) = elim (Bool-cases (in_alias c)) [
  | inl good ↦ rw (good, safe_runes) (good, safe_runes-IsSafe zero s)
  | inr bad ↦ rw (bad, safe_runes) (refl, safe_runes-IsSafe (rune_rest c s) s)
]

alias_of-IsSafe : (r : Result Bytes) (alias : Bytes) → alias_of r ≡ ok alias → All IsSafe alias
alias_of-IsSafe (err e) alias h = absurd (cc)
alias_of-IsSafe (ok rel) alias h =
    let s = to_lower (underscored (trim_suffix rel (ext rel))) in
    let e : alias ≡ safe_runes 0 s = cc in rw e (safe_runes-IsSafe 0 s)

-- An alias made from a path has only the bytes a-z, 0-9, _ and -, whatever the path.
pub alias_from_path-IsSafe :
    (fp : FilePath) (base path alias : Bytes)
    → alias_from_path fp base path ≡ ok alias
    → All IsSafe alias
unfolding alias_from_path
alias_from_path-IsSafe fp base path alias h = alias_of-IsSafe (fp.rel base path) alias h
