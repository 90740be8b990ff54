-- ===== src/Mdb/Types/Encoding.antt =====
-- The standard library's encodings that internal/mdb/types.go calls: unicode/utf8's Valid,
-- encoding/base64's StdEncoding and time's RFC 3339 format in UTC.
use mdbapi.Base.{
  ℕ, zero, suc, ◌+◌, ◌-◌, ◌*◌, ◌/◌, ◌%◌, Bool, true, false, ◌&&◌, Option, none, some, [], ◌∷◌, ◌++◌,
  ◌==◌, ltb, leb, if◌then◌else◌, length,
}
use mdbapi.Strings.{Bytes, codes}
use mdbapi.Strings.Decimal.{itoa}

-- of a leading byte: how many bytes follow, and the range of the first of them
abbrev pub lead : ℕ → Option (ℕ × ℕ × ℕ)
lead c =
    if ltb c 0x80
    then some (0, 0x80, 0xbf)
    else if leb 0xc2 c && leb c 0xdf
    then some (1, 0x80, 0xbf)
    else if c == 0xe0
    then some (2, 0xa0, 0xbf)
    else if c == 0xed
    then some (2, 0x80, 0x9f)
    else if leb 0xe1 c && leb c 0xef
    then some (2, 0x80, 0xbf)
    else if c == 0xf0
    then some (3, 0x90, 0xbf)
    else if leb 0xf1 c && leb c 0xf3
    then some (3, 0x80, 0xbf)
    else if c == 0xf4
    then some (3, 0x80, 0x8f)
    else none

-- `n` continuation bytes are due, the first of them from `lo` to `hi`
utf8_from : ℕ → ℕ → ℕ → Bytes → Bool
utf8_from zero lo hi [] = true
utf8_from (suc n) lo hi [] = false
utf8_from (suc n) lo hi (c ∷ s) = let rest = utf8_from n 0x80 0xbf s in leb lo c && leb c hi && rest
utf8_from zero lo hi (c ∷ s) = elim (lead c) [ none ↦ false | some (n, l, h) ↦ utf8_from n l h s ]

unfoldable pub utf8_valid : Bytes → Bool
unfolding utf8_from
utf8_valid s = utf8_from 0 0x80 0xbf s

-- the letter of a 6-bit number
unfoldable pub letter : ℕ → ℕ
letter n =
    if ltb n 26
    then n + 65
    else if ltb n 52
    then n + 71
    else if ltb n 62
    then n - 4
    else if n == 62
    then b'+'
    else b'/'

unfoldable pub base64 : Bytes → Bytes
base64 [] = []
base64 (a ∷ []) = letter (a / 4) ∷ letter (a % 4 * 16) ∷ b'=' ∷ b'=' ∷ []
base64 (a ∷ b ∷ []) =
    letter (a / 4) ∷ letter (a % 4 * 16 + b / 16) ∷ letter (b % 16 * 4) ∷ b'=' ∷ []
base64 (a ∷ b ∷ c ∷ s) =
    letter (a / 4)
    ∷ letter (a % 4 * 16 + b / 16)
    ∷ letter (b % 16 * 4 + c / 64)
    ∷ letter (c % 64)
    ∷ base64 s

-- time.Time by its clock in UTC: year, month, day, hour, minute, second, nanosecond
pub record Time : Type 0 where
  pub year : ℕ
  pub month : ℕ
  pub day : ℕ
  pub hour : ℕ
  pub minute : ℕ
  pub second : ℕ
  pub nanosecond : ℕ

-- IsZero: January 1, year 1, 00:00:00 UTC
unfoldable pub is_zero : Time → Bool
is_zero t =
    t.year == 1
    && t.month == 1
    && t.day == 1
    && t.hour == 0
    && t.minute == 0
    && t.second == 0
    && t.nanosecond == 0

abbrev zeros : ℕ → Bytes → Bytes
zeros zero s = s
zeros (suc n) s = b'0' ∷ zeros n s

-- a number in at least `w` digits
unfoldable pub padded : ℕ → ℕ → Bytes
padded w n = zeros (w - length (itoa n)) (itoa n)

-- t.UTC().Format(time.RFC3339)
unfoldable pub rfc3339 : Time → Bytes
rfc3339 t =
    padded 4 t.year
    ++ (b'-' ∷ padded 2 t.month)
    ++ (b'-' ∷ padded 2 t.day)
    ++ (b'T' ∷ padded 2 t.hour)
    ++ (b':' ∷ padded 2 t.minute)
    ++ (b':' ∷ padded 2 t.second)
    ++ codes "Z"

unfoldable pub running_encoding : Unit {0}
unfolding utf8_from utf8_valid letter base64 is_zero padded itoa rfc3339
running_encoding = tt
