-- ===== src/Strings/Scan.antt =====
-- fmt.Sscan of one int: white space, a sign, a base prefix, and as many digits as follow.
use mdbapi.Base.{
  ℕ, zero, suc, ◌+◌, ◌-◌, ◌*◌, ◌^◌, ◌≡◌, refl, Bool, true, false, not, ◌&&◌, ◌||◌, Option, none,
  some, [], ◌∷◌, ◌==◌, ltb, leb, if◌then◌else◌,
}
use mdbapi.Base.Int.{ℤ, pos, negsuc}
use mdbapi.Strings.{Bytes, codes, running_strings, trim_left, is_space, lower_byte}

-- the value of a digit; 255 for any other byte
abbrev digit_value : ℕ → ℕ
digit_value c =
    if leb b'0' c && leb c b'9'
    then c - b'0'
    else if leb b'a' (lower_byte c) && leb (lower_byte c) b'f'
    then lower_byte c - 87
    else 255

-- The bytes from the front that are digits or underscores, read in the base. An underscore stands
-- between two digits, or behind a prefix; `after` says whether it may come next.
unfoldable pub scan_digits : ℕ → Bool → ℕ → Bytes → Option ℕ
scan_digits base after n [] = if after then some n else none
scan_digits base after n (c ∷ s) =
    let digit = scan_digits base true (n * base + digit_value c) s in
    let under = scan_digits base false n s in
    if c == b'_'
    then (if after then under else none)
    else if ltb (digit_value c) base
    then digit
    else if after
    then some n
    else none

-- at least one byte of the class behind a prefix such as 0x
abbrev behind_prefix : ℕ → Bytes → Option ℕ
behind_prefix base [] = none
behind_prefix base (c ∷ s) =
    if c == b'_' || ltb (digit_value c) base then scan_digits base true 0 (c ∷ s) else none

-- the base prefix and the digits
unfoldable pub scan_magnitude : Bytes → Option ℕ
scan_magnitude [] = none
scan_magnitude (c ∷ []) = scan_digits 10 false 0 (c ∷ [])
scan_magnitude (c ∷ d ∷ s) =
    if not (c == b'0')
    then scan_digits 10 false 0 (c ∷ d ∷ s)
    else if lower_byte d == b'b'
    then behind_prefix 2 s
    else if lower_byte d == b'o'
    then behind_prefix 8 s
    else if lower_byte d == b'x'
    then behind_prefix 16 s
    else scan_digits 8 true 0 (d ∷ s)

-- strconv.ParseInt refuses what does not fit in 64 bits
abbrev signed : Bool → Option ℕ → Option ℤ
signed minus none = none
signed false (some n) = if ltb n (2 ^ 63) then some (pos n) else none
signed true (some zero) = some (pos 0)
signed true (some (suc n)) = if ltb n (2 ^ 63) then some (negsuc n) else none

abbrev scan_sign : Bytes → Option ℤ
scan_sign [] = none
scan_sign (c ∷ s) =
    if c == b'-'
    then signed true (scan_magnitude s)
    else if c == b'+'
    then signed false (scan_magnitude s)
    else signed false (scan_magnitude (c ∷ s))

-- `none` is an error, which leaves the target as it was
unfoldable pub sscan_int : Bytes → Option ℤ
sscan_int s = scan_sign (trim_left is_space s)

unfoldable pub running_scan : Unit {0}
unfolding running_strings scan_digits scan_magnitude sscan_int
running_scan = tt

scans :
    (sscan_int (codes " -50abc") ≡ some (negsuc 49))
    × (sscan_int (codes "0x_1F") ≡ some (pos 31))
    × (sscan_int (codes "010") ≡ some (pos 8))
    × (sscan_int (codes "1__0") ≡ none)
    × (sscan_int (codes "9223372036854775808") ≡ none)
    × (sscan_int (codes "0x") ≡ none)
    × (sscan_int (codes "ten") ≡ none)
unfolding running_scan
scans = (refl, refl, refl, refl, refl, refl, refl)
