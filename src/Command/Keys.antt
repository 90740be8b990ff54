-- ===== src/Command/Keys.antt =====
-- `keygenCmd`, `generateKey` and `appendKeyToConfig` of cmd/mdbapi/main.go. The random bytes and the
-- file are parameters.
pub mod Generated
pub mod Appended
use mdbapi.Base.{
  ℕ, zero, suc, ◌+◌, ◌-◌, ◌/◌, ◌%◌, Bool, true, false, Option, none, some, List, [], ◌∷◌, ◌++◌, ltb,
  if◌then◌else◌, is_nil, ◌>>=◌,
}
use mdbapi.Strings.{Bytes, codes, has_prefix, index, split, join, trim_space}
use mdbapi.Mdb.Errors.{Error, Result, ok, err, external}
use mdbapi.Config.Expand.{after}

abbrev pub hex_digit : ℕ → ℕ
hex_digit n = if ltb n 10 then b'0' + n else b'a' + (n - 10)

-- hex.EncodeToString
unfoldable pub encode_to_string : Bytes → Bytes
encode_to_string [] = []
encode_to_string (b ∷ bs) = hex_digit (b / 16) ∷ hex_digit (b % 16) ∷ encode_to_string bs

-- generateKey, on what rand.Read puts into the 32 bytes
unfoldable pub generate_key : Result Bytes → Result Bytes
generate_key random = after random (λ b. ok (encode_to_string b))

unfoldable pub spaces : ℕ → Bytes
spaces zero = []
spaces (suc n) = b' ' ∷ spaces n

-- strings.Index(line, "k") + 2, where -1 stands for no k
abbrev pub indent_of : Option ℕ → ℕ
indent_of none = 1
indent_of (some i) = i + 2

unfoldable pub new_line : Bytes → Bytes → Bytes
new_line key line =
    spaces (indent_of (index line (codes "k"))) ++ (codes "- \"" ++ (key ++ codes "\""))

-- the test has a first half that the second one covers
unfoldable pub is_keys_line : Bytes → Bool
is_keys_line line = has_prefix (trim_space line) (codes "keys:")

-- the loop over the lines; `none` is no such line
unfoldable pub add_line : Bytes → List Bytes → Option (List Bytes)
add_line key [] = none
add_line key (line ∷ lines) =
    let rest = add_line key lines in
    if is_keys_line line
    then some (line ∷ new_line key line ∷ lines)
    else (do more ← rest; some (line ∷ more))

abbrev pub saved : Bytes → Bytes → Option Error → Result (Unit {0}) × Bytes
saved old new none = (ok tt, new)
saved old new (some e) = (err e, old)

abbrev pub written :
    (Bytes → Option Error) → Bytes → Option (List Bytes) → Result (Unit {0}) × Bytes
written write old none = (err (external (codes "could not find 'keys:' in config")), old)
written write old (some lines) =
    saved old (join lines (codes "\n")) (write (join lines (codes "\n")))

-- the file is read
abbrev pub append_to : (Bytes → Option Error) → Bytes → Bytes → Result (Unit {0}) × Bytes
append_to write key old = written write old (add_line key (split old 10))

-- appendKeyToConfig, on the content of the file; `write` is the error of WriteFile, which leaves
-- the file as it was
unfoldable pub append_key_to_config :
    (Bytes → Option Error) → Option Error → Bytes → Bytes → Result (Unit {0}) × Bytes
append_key_to_config write (some e) key old = (err e, old)
append_key_to_config write none key old = append_to write key old

-- keygenCmd with -add-to-config, or without it
unfoldable pub keygen_command :
    Result Bytes
    → Option (Option Error)
    → (Bytes → Option Error)
    → Bytes
    → Result (Unit {0}) × Bytes
keygen_command random none write old = (after (generate_key random) (λ key. ok tt), old)
keygen_command random (some read) write old = elim (generate_key random) [
  | err e ↦ (err e, old)
  | ok key ↦ append_key_to_config write read key old
]
