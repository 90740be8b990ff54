-- ===== src/Integration/Quoting.antt =====
-- `quoteIdent` of cmd/integration/main.go, and the reading of a name in brackets.
use mdbapi.Base.{
  ℕ, ◌≡◌, ◌∙◌, refl, ap, Bool, true, false, not, Option, none, some, [], ◌∷◌, ◌++◌, ◌==◌,
  if◌then◌else◌, arith, Bool-cases, inl, inr, append_assoc, ◌>>=◌, ==_iff,
}
use mdbapi.Strings.{Bytes, codes}

-- strings.ReplaceAll(s, "]", "]]")
unfoldable pub double_closing : Bytes → Bytes
double_closing [] = []
double_closing (c ∷ s) =
    let rest = double_closing s in if c == b']' then b']' ∷ b']' ∷ rest else c ∷ rest

unfoldable pub quote_ident : Bytes → Bytes
quote_ident s = b'[' ∷ (double_closing s ++ codes "]")

-- How SQL reads a name behind its opening bracket: two closing brackets stand for one, and a single
-- one ends the name. The result is the name and what follows it.
unfoldable pub read_name : Bytes → Option (Bytes × Bytes)
read_name [] = none
read_name (c ∷ []) = if c == b']' then some ([], []) else none
read_name (c ∷ d ∷ s) =
    let doubled = read_name s in
    let on = read_name (d ∷ s) in
    if c == b']'
    then (if d == b']' then (do r ← doubled; some (b']' ∷ r.0, r.1)) else some ([], d ∷ s))
    else (do r ← on; some (c ∷ r.0, r.1))

unfoldable pub read_ident : Bytes → Option (Bytes × Bytes)
read_ident [] = none
read_ident (c ∷ s) = if c == b'[' then read_name s else none

-- the text behind a name does not go on with a closing bracket
abbrev pub ends_name : Bytes → Bool
ends_name [] = true
ends_name (c ∷ s) = not (c == b']')

read_name-other :
    (c : ℕ) (s : Bytes)
    → (c == b']') ≡ false
    → read_name (c ∷ s) ≡ (read_name s >>= λ r. some (c ∷ r.0, r.1))
unfolding read_name
read_name-other c [] h = rw h
read_name-other c (d ∷ s) h = rw h

read_name_doubled :
    (s : Bytes) → read_name (b']' ∷ b']' ∷ s) ≡ (read_name s >>= λ r. some (b']' ∷ r.0, r.1))
unfolding read_name
read_name_doubled s = refl

read_name_end : (rest : Bytes) → ends_name rest ≡ true → read_name (b']' ∷ rest) ≡ some ([], rest)
unfolding read_name
read_name_end [] h = refl
read_name_end (d ∷ rest) h = elim (Bool-cases (d == b']')) [
  | inl e ↦ absurd (ground (arith, e, h))
  | inr e ↦ rw e
]

read_name-double_closing :
    (s rest : Bytes)
    → ends_name rest ≡ true
    → read_name (double_closing s ++ b']' ∷ rest) ≡ some (s, rest)
unfolding double_closing
read_name-double_closing [] rest h = read_name_end rest h
read_name-double_closing (c ∷ s) rest h = elim (Bool-cases (c == b']')) [
  | inl e ↦
      rw (e, (==_iff c b']').0 e)
        (read_name_doubled (double_closing s ++ b']' ∷ rest)
          ∙ ap (λ o. o >>= λ (r : Bytes × Bytes). some (b']' ∷ r.0, r.1))
              (read_name-double_closing s rest h))
  | inr e ↦ rw e (
      read_name-other c (double_closing s ++ b']' ∷ rest) e
      ∙ ap (λ o. o >>= λ (r : Bytes × Bytes). some (c ∷ r.0, r.1))
          (read_name-double_closing s rest h))
]

-- Whatever the name, reading the quoted name gives it back with the text behind it, if that does
-- not start with a closing bracket: no name ends the quotation early.
pub read_ident-quote_ident :
    (s rest : Bytes) → ends_name rest ≡ true → read_ident (quote_ident s ++ rest) ≡ some (s, rest)
unfolding quote_ident read_ident
read_ident-quote_ident s rest h =
    ap read_name (append_assoc (double_closing s) (codes "]") rest)
    ∙ read_name-double_closing s rest h
