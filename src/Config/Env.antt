-- ===== src/Config/Env.antt =====
-- `expandEnv` of internal/config/config.go.
pub mod References
use mdbapi.Base.{
  ℕ, zero, suc, ◌+◌, Bool, true, false, not, ◌&&◌, ◌||◌, Option, none, some, List, [], ◌∷◌, ◌++◌,
  ◌==◌, leb, if◌then◌else◌, is_nil, length, take, drop,
}
use mdbapi.Strings.{Bytes, codes}

-- [A-Za-z_] and [A-Za-z0-9_]
abbrev pub starts_name : ℕ → Bool
starts_name c = (leb b'A' c && leb c b'Z') || (leb b'a' c && leb c b'z') || c == b'_'

abbrev pub in_name : ℕ → Bool
in_name c = starts_name c || (leb b'0' c && leb c b'9')

-- the longest prefix whose bytes all pass
unfoldable pub prefix_of : (ℕ → Bool) → Bytes → Bytes
prefix_of p [] = []
prefix_of p (c ∷ s) = let rest = prefix_of p s in if p c then c ∷ rest else []

-- a match of the expression: the name, and the number of bytes behind the dollar
abbrev braced : Bytes → Bytes → Option (Bytes × ℕ)
braced [] rest = none
braced (c ∷ name) [] = none
braced (c ∷ name) (d ∷ rest) = some (c ∷ name, length name + 3)

abbrev bare : Bytes → Option (Bytes × ℕ)
bare [] = none
bare (c ∷ name) = some (c ∷ name, length name + 1)

-- the first alternative is tried before the second; what is left of a braced name begins with }
unfoldable pub reference : Bytes → Option (Bytes × ℕ)
reference [] = none
reference (c ∷ s) =
    if c == b'{'
    then (let name = prefix_of (λ d. not (d == b'}')) s in braced name (drop (length name) s))
    else if starts_name c
    then bare (prefix_of in_name (c ∷ s))
    else none

abbrev pub unset_open : Bytes
unset_open = codes "__UNSET_ENV_"

-- os.LookupEnv is a parameter
abbrev pub value_of : (Bytes → Option Bytes) → Bytes → Bytes
value_of env name = elim (env name) [ none ↦ unset_open ++ (name ++ codes "__") | some val ↦ val ]

-- ReplaceAllStringFunc; the number counts the bytes of a match that are still to pass
unfoldable pub expand_from : (Bytes → Option Bytes) → ℕ → Bytes → Bytes
expand_from env skip [] = []
expand_from env (suc skip) (c ∷ s) = expand_from env skip s
expand_from env zero (c ∷ s) = elim (c == b'$') [
  | false ↦ c ∷ expand_from env zero s
  | true ↦ elim (reference s) [
    | none ↦ c ∷ expand_from env zero s
    | some (name, skip) ↦ value_of env name ++ expand_from env skip s
  ]
]

unfoldable pub expand_env : (Bytes → Option Bytes) → Bytes → Bytes
expand_env env s = expand_from env 0 s
