-- ===== src/Config/Glob.antt =====
-- internal/config/glob.go, on Windows paths. The functions of path/filepath whose results depend
-- on the system are parameters, and so is the file system.
pub mod Alias
use mdbapi.Base.{
  ℕ, zero, suc, ◌+◌, Bool, true, false, not, ◌&&◌, ◌||◌, Option, none, some, List, [], ◌∷◌, ◌++◌,
  map, ◌==◌, leb, if◌then◌else◌, is_nil, is_some, any, length, drop, ◌>>=◌,
}
use mdbapi.Base.Assoc.{lookup, insert}
use mdbapi.Strings.{
  Bytes, codes, bytes_eq, to_lower, equal_fold, has_prefix, contains, contains_any, split, join,
  trim_prefix, trim_suffix,
}
use mdbapi.Mdb.Errors.{Error, Result, ok, err}
use mdbapi.Mdb.Types.Encoding.{lead}
use mdbapi.Config.{DatabaseConfig}

abbrev pub separator : ℕ
separator = b'\\'

-- os.IsPathSeparator
abbrev pub is_separator : ℕ → Bool
is_separator c = c == b'\\' || c == b'/'

-- a file or directory that filepath.WalkDir comes by, and whether it could be read
pub record Visit : Type 0 where
  pub path : Bytes
  pub name : Bytes
  pub is_dir : Bool
  pub failed : Bool

-- path/filepath and the file system; `none` of `matches` is ErrBadPattern, and the error of Abs is
-- dropped by the code
pub record FilePath : Type 0 where
  pub clean : Bytes → Bytes
  pub volume_name : Bytes → Bytes
  pub base : Bytes → Bytes
  pub dir : Bytes → Bytes
  pub abs : Bytes → Bytes
  pub rel : Bytes → Bytes → Result Bytes
  pub matches : Bytes → Bytes → Option Bool
  pub glob : Bytes → Result (List Bytes)
  pub walk : Bytes → List Visit
  pub bad_pattern : Error

-- filepath.Ext; `none` is no dot behind the last separator
unfoldable pub dotted : Bytes → Option Bytes
dotted [] = none
dotted (c ∷ s) = elim (dotted s) [
  | some e ↦ some e
  | none ↦ if c == b'.' && not (any is_separator s) then some (c ∷ s) else none
]

abbrev pub or_no_text : Option Bytes → Bytes
or_no_text none = []
or_no_text (some s) = s

unfoldable pub ext : Bytes → Bytes
ext s = or_no_text (dotted s)

-- the parts before the first with a wildcard
unfoldable pub safe_parts : List Bytes → List Bytes
safe_parts [] = []
safe_parts (p ∷ ps) =
    let rest = safe_parts ps in if contains_any p (codes "*?") then [] else p ∷ rest

abbrev starts_at_separator : Bytes → Bool
starts_at_separator [] = false
starts_at_separator (c ∷ s) = is_separator c

abbrev rooted : Bytes → Bytes → Bytes → Bytes
rooted vol rest joined =
    if starts_at_separator rest && not (has_prefix joined (vol ++ separator ∷ []))
    then vol ++ separator ∷ trim_prefix joined vol
    else joined

abbrev joined_parts : Bytes → Bytes → List Bytes → Bytes
joined_parts vol rest [] = vol ++ separator ∷ []
joined_parts vol rest (p ∷ ps) = rooted vol rest (vol ++ join (p ∷ ps) (separator ∷ []))

unfoldable pub glob_base : FilePath → Bytes → Bytes
glob_base fp pattern =
    let cleaned = fp.clean pattern in
    let vol = fp.volume_name cleaned in
    let rest = drop (length vol) cleaned in
    joined_parts vol rest (safe_parts (split rest separator))

-- `n` continuation bytes come next, the first of them from `lo` to `hi`
follows : ℕ → ℕ → ℕ → Bytes → Bool
follows zero lo hi s = true
follows (suc n) lo hi [] = false
follows (suc n) lo hi (c ∷ s) = let rest = follows n 0x80 0xbf s in leb lo c && leb c hi && rest

-- the bytes behind the first one of a character, in Go's range over a string
unfoldable pub rune_rest : ℕ → Bytes → ℕ
unfolding follows
rune_rest c s = elim (lead c) [ none ↦ 0 | some (n, lo, hi) ↦ if follows n lo hi s then n else 0 ]

-- [a-z0-9_-]
abbrev pub in_alias : ℕ → Bool
in_alias c = (leb b'a' c && leb c b'z') || (leb b'0' c && leb c b'9') || c == b'-' || c == b'_'

-- the loop over the characters; the number counts the bytes of one that are still to pass
unfoldable pub safe_runes : ℕ → Bytes → Bytes
safe_runes skip [] = []
safe_runes (suc skip) (c ∷ s) = safe_runes skip s
safe_runes zero (c ∷ s) = elim (in_alias c) [
  | true ↦ c ∷ safe_runes zero s
  | false ↦ b'_' ∷ safe_runes (rune_rest c s) s
]

-- strings.ReplaceAll(s, "\\", "_")
abbrev pub underscored : Bytes → Bytes
underscored s = map (λ c. if c == separator then b'_' else c) s

abbrev pub alias_of : Result Bytes → Result Bytes
alias_of (err e) = err e
alias_of (ok rel) = ok (safe_runes 0 (to_lower (underscored (trim_suffix rel (ext rel)))))

unfoldable pub alias_from_path : FilePath → Bytes → Bytes → Result Bytes
alias_from_path fp base path = alias_of (fp.rel base path)

-- PathMatchesGlob
unfoldable pub path_matches_glob : FilePath → Bytes → Bytes → Bool
path_matches_glob fp raw_pattern raw_path =
    let pattern = fp.clean raw_pattern in
    let path = fp.clean raw_path in
    let base = fp.abs (glob_base fp pattern) in
    if not (contains pattern (codes "**"))
    then or_false (fp.matches (to_lower pattern) (to_lower path))
    else not (equal_fold (fp.abs (fp.dir path)) base)
      && (has_prefix (to_lower (fp.abs path)) (to_lower base ++ separator ∷ [])
          && or_false (fp.matches (to_lower (fp.base pattern)) (to_lower (fp.base path))))
  where
    or_false : Option Bool → Bool
    or_false none = false
    or_false (some b) = b

-- the callback of WalkDir: keep the file, pass it by, or stop with an error
abbrev pub visit : FilePath → Bytes → Bytes → Visit → Result Bool
visit fp leaf base v =
    if v.failed || v.is_dir || equal_fold (fp.abs (fp.dir v.path)) base
    then ok false
    else elim (fp.matches leaf (to_lower v.name)) [ none ↦ err fp.bad_pattern | some b ↦ ok b ]

abbrev pub kept : Visit → Result Bool → Result (List Bytes) → Result (List Bytes)
kept v (err e) rest = err e
kept v (ok b) (err e) = err e
kept v (ok b) (ok paths) = ok (if b then v.path ∷ paths else paths)

unfoldable pub walked : FilePath → Bytes → Bytes → List Visit → Result (List Bytes)
walked fp leaf base [] = ok []
walked fp leaf base (v ∷ vs) = kept v (visit fp leaf base v) (walked fp leaf base vs)

-- MatchGlob
unfoldable pub match_glob : FilePath → Bytes → Result (List Bytes)
match_glob fp raw_pattern =
    let pattern = fp.clean raw_pattern in
    let base = glob_base fp pattern in
    let tree = walked fp (to_lower (fp.base pattern)) (fp.abs base) (fp.walk base) in
    if not (contains pattern (codes "**")) then fp.glob pattern else tree
