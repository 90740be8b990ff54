-- ===== src/Mdb/Types/Base64.antt =====
-- Base64 loses nothing: a reader of base64, and its round trip with the encoder of
-- internal/mdb/types.go.
use mdbapi.Base.{
  ℕ, ◌+◌, ◌-◌, ◌*◌, ◌/◌, ◌%◌, ◌<◌, ◌≡◌, refl, ap, ◌∙◌, false, Option, none, some, [], ◌∷◌, arith,
  ◌==◌, ltb, if◌then◌else◌, All, ◌>>=◌,
}
use mdbapi.Strings.{Bytes}
use mdbapi.Mdb.Types.Encoding.{letter, base64}

-- the 6-bit number of a letter
unletter : ℕ → ℕ
unletter c =
    if c == b'+'
    then 62
    else if c == b'/'
    then 63
    else if ltb c 58
    then c + 4
    else if ltb c 91
    then c - 65
    else c - 71

-- A reader of base64, written from its definition: groups of four letters, padding in the last.
pub decode64 : Bytes → Option Bytes
decode64 [] = some []
decode64 (w ∷ x ∷ y ∷ z ∷ s) =
    let p = unletter w in
    let q = unletter x in
    let r = unletter y in
    let t = unletter z in
    let rest = decode64 s in
    if y == b'='
    then some ((p * 4 + q / 16) ∷ [])
    else if z == b'='
    then some ((p * 4 + q / 16) ∷ (q % 16 * 16 + r / 4) ∷ [])
    else rest >>= λ out. some ((p * 4 + q / 16) ∷ (q % 16 * 16 + r / 4) ∷ (r % 4 * 64 + t) ∷ out)
decode64 _ = none

unletter-letter : (n : ℕ) → n < 64 → unletter (letter n) ≡ n
unfolding unletter letter
unletter-letter n h = ground arith

letter-ne-pad : (n : ℕ) → n < 64 → (letter n == b'=') ≡ false
unfolding letter
letter-ne-pad n h = ground arith

abbrev pub IsByte : ℕ → Type 0
IsByte c = c < 256

pair_bytes :
    (x a y b : ℕ) (s : Bytes)
    → x ≡ a
    → y ≡ b
    → ◌≡◌ {A = Option Bytes} (some (x ∷ y ∷ s)) (some (a ∷ b ∷ s))
pair_bytes x a y b s p q = cc

-- The base64 of any bytes reads back as these bytes.
pub decode64-base64 : (s : Bytes) → All IsByte s → decode64 (base64 s) ≡ some s
unfolding decode64 base64
decode64-base64 [] h = refl
decode64-base64 (a ∷ []) h =
    rw (unletter-letter (a / 4) (omega arith), unletter-letter (a % 4 * 16) (omega arith))
      (ap (λ (x : ℕ). some (x ∷ [])) (omega arith))
decode64-base64 (a ∷ b ∷ []) h =
    let x : ℕ = a % 4 * 16 + b / 16 in
    let y : ℕ = b % 16 * 4 in
    rw
      (
        letter-ne-pad y (omega arith),
        unletter-letter (a / 4) (omega arith),
        unletter-letter x (omega arith),
        unletter-letter y (omega arith),
      )
      (pair_bytes (a / 4 * 4 + x / 16) a (x % 16 * 16 + y / 4) b [] (omega arith) (omega arith))
decode64-base64 (a ∷ b ∷ c ∷ s) h =
    let x : ℕ = a % 4 * 16 + b / 16 in
    let y : ℕ = b % 16 * 4 + c / 64 in
    let z : ℕ = c % 64 in
    rw
      (
        letter-ne-pad y (omega arith),
        letter-ne-pad z (omega arith),
        unletter-letter (a / 4) (omega arith),
        unletter-letter x (omega arith),
        unletter-letter y (omega arith),
        unletter-letter z (omega arith),
        decode64-base64 s (h.1.1.1),
      )
      (pair_bytes (a / 4 * 4 + x / 16) a (x % 16 * 16 + y / 4) b _ (omega arith) (omega arith)
        ∙ ap (λ (v : ℕ). some (a ∷ b ∷ v ∷ s)) (omega arith))
