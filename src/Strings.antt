-- ===== src/Strings.antt =====
-- The functions of Go's package strings that the program calls, over texts as lists of bytes.
-- White space is that of Unicode, and so is the upper case as far as it is of ASCII. The lower case,
-- and with it EqualFold, is that of ASCII letters; other bytes stay as they are.
pub mod Search
pub mod Trim
pub mod Decimal
pub mod Scan
pub mod Lines
use Prim.Native.Char.{code}
use mdbapi.Base.{
  ℕ, zero, suc, ◌+◌, ◌-◌, ◌≡◌, refl, ◌↔◌, Bool, true, false, ◌&&◌, ◌||◌, Option, none, some, List,
  [], ◌∷◌, ◌++◌, map, arith, String, ltb, leb, ◌==◌, if◌then◌else◌, is_nil, is_some, ◌>>=◌, take,
  drop, length, any,
}
use mdbapi.Base.Assoc.{Eq}

abbrev pub Bytes : Type 0
Bytes = List ℕ

-- the bytes of an ASCII literal
abbrev pub codes : String → Bytes
codes String.[] = []
codes (String.◌∷◌ c s) = code c ∷ codes s

-- s == t
unfoldable pub str_eq : Bytes → Bytes → Bool
str_eq [] [] = true
str_eq (c ∷ s) (d ∷ t) = c == d && str_eq s t
str_eq _ _ = false

pub str_eq_iff : (s t : Bytes) → (str_eq s t ≡ true) ↔ (s ≡ t)
unfolding str_eq
str_eq_iff [] [] = ground arith
str_eq_iff (c ∷ s) (d ∷ t) = ground (arith, str_eq_iff s t)
str_eq_iff [] (d ∷ t) = ground arith
str_eq_iff (c ∷ s) [] = ground arith

pub str_eq_symm : (s t : Bytes) → str_eq s t ≡ false → str_eq t s ≡ false
str_eq_symm s t h = ground (arith, str_eq_iff s t, str_eq_iff t s)

instance abbrev pub bytes_eq : Eq Bytes
bytes_eq = record { beq = str_eq; beq_iff = str_eq_iff }

unfoldable pub has_prefix : Bytes → Bytes → Bool
has_prefix s [] = true
has_prefix [] (p ∷ ps) = false
has_prefix (c ∷ s) (p ∷ ps) = c == p && has_prefix s ps

-- strings.Index; `none` stands for -1
unfoldable pub index : Bytes → Bytes → Option ℕ
index [] p = if has_prefix [] p then some 0 else none
index (c ∷ s) p =
    let rest = index s p in if has_prefix (c ∷ s) p then some 0 else (do i ← rest; some (suc i))

unfoldable pub contains : Bytes → Bytes → Bool
contains s p = is_some (index s p)

unfoldable pub has_suffix : Bytes → Bytes → Bool
has_suffix [] p = str_eq [] p
has_suffix (c ∷ s) p = str_eq (c ∷ s) p || has_suffix s p

-- the byte goes in front of the first part
abbrev pub push : ℕ → List Bytes → List Bytes
push c [] = (c ∷ []) ∷ []
push c (p ∷ ps) = (c ∷ p) ∷ ps

-- strings.Split(s, sep) for a separator of one byte
unfoldable pub split : Bytes → ℕ → List Bytes
split [] sep = [] ∷ []
split (c ∷ s) sep = let parts = split s sep in if c == sep then [] ∷ parts else push c parts

-- strings.SplitN(s, sep, n + 1): at most `n` cuts
unfoldable pub split_cuts : Bytes → ℕ → ℕ → List Bytes
split_cuts [] sep n = [] ∷ []
split_cuts (c ∷ s) sep zero = (c ∷ s) ∷ []
split_cuts (c ∷ s) sep (suc n) =
    let cut = split_cuts s sep n in
    let on = split_cuts s sep (suc n) in if c == sep then [] ∷ cut else push c on

unfoldable pub join : List Bytes → Bytes → Bytes
join [] sep = []
join (p ∷ []) sep = p
join (p ∷ q ∷ ps) sep = p ++ (sep ++ join (q ∷ ps) sep)

abbrev pub upper_byte : ℕ → ℕ
upper_byte c = if leb b'a' c && leb c b'z' then c - 32 else c

abbrev pub lower_byte : ℕ → ℕ
lower_byte c = if leb b'A' c && leb c b'Z' then c + 32 else c

-- the upper case of a character, whose first byte is `c`, as far as its result is of ASCII, and the
-- number of its other bytes: that of U+017F is S and that of U+0131 is I
abbrev pub upper_at : ℕ → Bytes → ℕ × ℕ
upper_at c [] = (upper_byte c, 0)
upper_at c (d ∷ s) =
    if c == 197 && d == 191
    then (b'S', 1)
    else if c == 196 && d == 177
    then (b'I', 1)
    else (upper_byte c, 0)

-- the number counts the bytes that are still to pass
unfoldable pub upper_from : ℕ → Bytes → Bytes
upper_from skip [] = []
upper_from (suc skip) (c ∷ s) = upper_from skip s
upper_from zero (c ∷ s) = let (u, skip) = upper_at c s in u ∷ upper_from skip s

-- strings.ToUpper. Bytes beyond ASCII whose upper case is beyond ASCII too stay as they are: the
-- program looks for ASCII only.
abbrev pub to_upper : Bytes → Bytes
to_upper = upper_from 0

abbrev pub to_lower : Bytes → Bytes
to_lower = map lower_byte

unfoldable pub equal_fold : Bytes → Bytes → Bool
equal_fold s t = str_eq (to_lower s) (to_lower t)

-- ' ', \t, \n, \v, \f, \r
abbrev pub is_space : ℕ → Bool
is_space c = c == b' ' || leb 9 c && leb c 13

unfoldable pub trim_left : (ℕ → Bool) → Bytes → Bytes
trim_left p [] = []
trim_left p (c ∷ s) = let rest = trim_left p s in if p c then rest else c ∷ s

unfoldable pub trim_right : (ℕ → Bool) → Bytes → Bytes
trim_right p [] = []
trim_right p (c ∷ s) = let rest = trim_right p s in if is_nil rest && p c then [] else c ∷ rest

-- the white space beyond ASCII: U+0085 and U+00A0
abbrev pub is_space_of_two : ℕ → ℕ → Bool
is_space_of_two c d = c == 194 && (d == 133 || d == 160)

-- U+1680, U+2000 to U+200A, U+2028, U+2029, U+202F, U+205F and U+3000
abbrev pub is_space_of_three : ℕ → ℕ → ℕ → Bool
is_space_of_three c d e =
    (c == 225 && d == 154 && e == 128)
    || (c == 226 && d == 128 && ((leb 128 e && leb e 138) || e == 168 || e == 169 || e == 175))
    || (c == 226 && d == 129 && e == 159)
    || (c == 227 && d == 128 && e == 128)

abbrev pub third_width : ℕ → ℕ → Bytes → ℕ
third_width c d [] = 0
third_width c d (e ∷ s) = if is_space_of_three c d e then 3 else 0

abbrev pub second_width : ℕ → Bytes → ℕ
second_width c [] = 0
second_width c (d ∷ s) = if is_space_of_two c d then 2 else third_width c d s

-- the number of bytes of the white space that a text with the first byte `c` begins with
unfoldable pub space_width : ℕ → Bytes → ℕ
space_width c s = if is_space c then 1 else second_width c s

-- the text behind the white space at its front; the number counts the bytes that are still to pass
unfoldable pub skip_spaces : ℕ → Bytes → Bytes
skip_spaces skip [] = []
skip_spaces (suc skip) (c ∷ s) = skip_spaces skip s
skip_spaces zero (c ∷ s) = elim (space_width c s) [ zero ↦ c ∷ s | suc skip ↦ skip_spaces skip s ]

-- nothing but white space
unfoldable pub is_blank : ℕ → Bytes → Bool
is_blank skip [] = true
is_blank (suc skip) (c ∷ s) = is_blank skip s
is_blank zero (c ∷ s) = elim (space_width c s) [ zero ↦ false | suc skip ↦ is_blank skip s ]

unfoldable pub trim_end : Bytes → Bytes
trim_end [] = []
trim_end (c ∷ s) = let rest = trim_end s in if is_blank 0 (c ∷ s) then [] else c ∷ rest

-- strings.TrimSpace
unfoldable pub trim_space : Bytes → Bytes
trim_space s = trim_end (skip_spaces 0 s)

-- strings.TrimPrefix
unfoldable pub trim_prefix : Bytes → Bytes → Bytes
trim_prefix s p = if has_prefix s p then drop (length p) s else s

-- strings.TrimSuffix
unfoldable pub trim_suffix : Bytes → Bytes → Bytes
trim_suffix s p = if has_suffix s p then take (length s - length p) s else s

-- strings.ContainsAny
abbrev pub contains_any : Bytes → Bytes → Bool
contains_any s set = any (λ c. any (λ d. c == d) set) s

-- a run of the text functions names this one on its `unfolding` line
unfoldable pub running_strings : Unit {0}
unfolding str_eq has_prefix has_suffix index contains split split_cuts join equal_fold trim_left
    trim_right upper_from space_width skip_spaces is_blank trim_end trim_space trim_prefix
    trim_suffix
running_strings = tt

find_comment : index (codes "ab--c") (codes "--") ≡ some 2
unfolding running_strings
find_comment = refl

trim_both : trim_space (codes "  a b ") ≡ codes "a b"
unfolding running_strings
trim_both = refl

cut_twice : split_cuts (codes "a#b#c#d") b'#' 2 ≡ codes "a" ∷ codes "b" ∷ codes "c#d" ∷ []
unfolding running_strings
cut_twice = refl

-- U+00A0 and U+3000 are white space, and the upper case of U+017F is S
beyond_ascii :
    to_upper (trim_space (194 ∷ 160 ∷ 197 ∷ 191 ∷ codes "elect" ++ 227 ∷ 128 ∷ 128 ∷ []))
    ≡ codes "SELECT"
unfolding running_strings
beyond_ascii = refl
