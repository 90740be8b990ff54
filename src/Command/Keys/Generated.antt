-- ===== src/Command/Keys/Generated.antt =====
-- The keys that `generateKey` of cmd/mdbapi/main.go makes.
use mdbapi.Base.{
  ℕ, ◌+◌, ◌-◌, ◌*◌, ◌/◌, ◌%◌, ◌<◌, ◌≡◌, refl, ap, false, [], ◌∷◌, ltb, ◌==◌, length, arith, All,
  if◌then◌else◌,
}
use mdbapi.Strings.{Bytes, has_prefix}
use mdbapi.Mdb.Errors.{ok}
use mdbapi.Config.Check.{is_unset}
use mdbapi.Config.Check.Valid.{IsKey}
use mdbapi.Command.Keys.{hex_digit, encode_to_string, generate_key}

abbrev hex_value : ℕ → ℕ
hex_value c = if ltb c b'a' then c - b'0' else c - b'a' + 10

-- the bytes that hex digits stand for
unfoldable pub decode : Bytes → Bytes
decode [] = []
decode (c ∷ []) = []
decode (c ∷ d ∷ s) = (hex_value c * 16 + hex_value d) ∷ decode s

abbrev pub IsByte : ℕ → Type 0
IsByte b = b < 256

hex_value_lem : (n : ℕ) → n < 16 → hex_value (hex_digit n) ≡ n
hex_value_lem n h = ground arith

decode-encode_to_string : (s : Bytes) → All IsByte s → decode (encode_to_string s) ≡ s
unfolding decode encode_to_string
decode-encode_to_string [] h = refl
decode-encode_to_string (b ∷ s) (small, h) =
    rw
      (
        hex_value_lem (b / 16) (omega arith),
        hex_value_lem (b % 16) (omega arith),
        decode-encode_to_string s h,
      )
      (ap (λ n. n ∷ s) (omega arith))

length-encode_to_string : (s : Bytes) → length (encode_to_string s) ≡ 2 * length s
unfolding encode_to_string
length-encode_to_string [] = refl
length-encode_to_string (b ∷ s) = omega (arith, length-encode_to_string s)

-- no hex digit is the first byte of the mark of an unset variable
hex_digit-ne : (n : ℕ) → (hex_digit n == b'_') ≡ false
hex_digit-ne n = ground arith

encode_to_string-set : (s : Bytes) → is_unset (encode_to_string s) ≡ false
unfolding encode_to_string has_prefix
encode_to_string-set [] = refl
encode_to_string-set (b ∷ s) = rw (hex_digit-ne (b / 16))

-- From 32 random bytes a key is made that validation accepts, and from which the bytes can be read
-- back, so different bytes give different keys.
pub generate_key-IsKey :
    (random : Bytes)
    → All IsByte random
    → length random ≡ 32
    → (key : Bytes) × (generate_key (ok random) ≡ ok key) × IsKey key × (decode key ≡ random)
unfolding generate_key
generate_key-IsKey random bytes size = (
  encode_to_string random,
  refl,
  (encode_to_string-set random, ground (arith, length-encode_to_string random, size)),
  decode-encode_to_string random bytes,
)
