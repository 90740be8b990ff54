-- ===== src/Probing/Recognising.antt =====
-- The three tests for a database file: `findMDBFiles` of cmd/probe/main.go looks at the end of the
-- path, that of cmd/integration/main.go and `tryRegister` of internal/watcher/watcher.go at its
-- extension.
use mdbapi.Base.{
  ℕ, ◌≡◌, ◌∙◌, refl, sym, ap, Bool, true, false, not, ◌&&◌, Option, none, some, [], ◌∷◌, ◌==◌, any,
  arith, if◌then◌else◌, Bool-cases, Option-cases, inl, inr,
}
use mdbapi.Strings.{Bytes, codes, str_eq, str_eq_iff, has_suffix, to_lower, lower_byte, equal_fold}
use mdbapi.Config.Glob.{dotted, or_no_text, ext, is_separator}
use mdbapi.Watcher.{is_access_file}
use mdbapi.Integration.Aliases.{is_database}
use mdbapi.Probing.{is_database_path}

abbrev is_dot : ℕ → Bool
is_dot c = c == b'.'

any-to_lower :
    (p : ℕ → Bool) (s : Bytes) → ((c : ℕ) → p (lower_byte c) ≡ p c) → any p (to_lower s) ≡ any p s
any-to_lower p [] h = refl
any-to_lower p (c ∷ s) h = rw (h c, any-to_lower p s h)

lower_byte-dot : (c : ℕ) → is_dot (lower_byte c) ≡ is_dot c
lower_byte-dot c = ground arith

lower_byte-separator : (c : ℕ) → is_separator (lower_byte c) ≡ is_separator c
lower_byte-separator c = ground arith

-- an extension starts with a dot of the text
dotted-dot : (s d : Bytes) → dotted s ≡ some d → any is_dot s ≡ true
unfolding dotted
dotted-dot [] d h = absurd (cc)
dotted-dot (c ∷ s) d h = elim (Option-cases (dotted s)) [
  | inr (e, found) ↦ ground (arith, dotted-dot s e found)
  | inl no_dot ↦ elim (Bool-cases (is_dot c)) [
    | inl here ↦ ground (arith, here)
    | inr other ↦ absurd (let k = rw (no_dot, dotted) at h in ground (arith, k, other))
  ]
]

-- the rest of an extension: no dot and no separator
abbrev IsPlain : Bytes → Type 0
IsPlain w = (any is_dot w ≡ false) × (any is_separator w ≡ false)

-- the whole text is not an extension that has a dot or a separator behind its first byte
whole_ne :
    (c : ℕ) (s w : Bytes) (p : ℕ → Bool)
    → ((b : ℕ) → p (lower_byte b) ≡ p b)
    → any p w ≡ false
    → any p s ≡ true
    → str_eq (to_lower (c ∷ s)) (b'.' ∷ w) ≡ false
whole_ne c s w p same plain there = elim (Bool-cases (str_eq (to_lower (c ∷ s)) (b'.' ∷ w))) [
  | inr e ↦ e
  | inl e ↦
      let whole = (str_eq_iff (to_lower (c ∷ s)) (b'.' ∷ w)).0 e in
      let tail : to_lower s ≡ w = cc in
      absurd (let f = sym (any-to_lower p s same) ∙ ap (any p) tail in cc (f, there, plain))
]

-- a text whose first byte is no dot is not an extension
head_ne : (c : ℕ) (s w : Bytes) → is_dot c ≡ false → str_eq (to_lower (c ∷ s)) (b'.' ∷ w) ≡ false
unfolding str_eq
head_ne c s w h = let e = lower_byte-dot c ∙ h in rw e

dotted-some : (c : ℕ) (s d : Bytes) → dotted s ≡ some d → dotted (c ∷ s) ≡ some d
unfolding dotted
dotted-some c s d h = rw (h, dotted)

dotted-none :
    (c : ℕ) (s : Bytes)
    → dotted s ≡ none
    → dotted (c ∷ s) ≡ (if is_dot c && not (any is_separator s) then some (c ∷ s) else none)
unfolding dotted
dotted-none c s h = rw (h, dotted)

not_whole :
    (c : ℕ) (s w : Bytes)
    → IsPlain w
    → (is_dot c && not (any is_separator s)) ≡ false
    → str_eq (to_lower (c ∷ s)) (b'.' ∷ w) ≡ false
not_whole c s w (no_dot, no_sep) h = elim (Bool-cases (any is_separator s)) [
  | inl there ↦ whole_ne c s w is_separator lower_byte-separator no_sep there
  | inr absent ↦ head_ne c s w (ground (arith, h, absent))
]

abbrev Agrees : Bytes → Bytes → Option Bytes → Type 0
Agrees w s o = has_suffix (to_lower s) (b'.' ∷ w) ≡ str_eq (to_lower (or_no_text o)) (b'.' ∷ w)

Agrees-cons :
    (w : Bytes) (c : ℕ) (s : Bytes)
    → IsPlain w
    → Agrees w s (dotted s)
    → Agrees w (c ∷ s) (dotted (c ∷ s))
unfolding has_suffix str_eq
Agrees-cons w c s (no_dot, no_sep) ih = elim (Option-cases (dotted s)) [
  | inr (d, found) ↦
      let there = rw found at ih in
      rw (
        dotted-some c s d found,
        whole_ne c s w is_dot lower_byte-dot no_dot (dotted-dot s d found),
        there,
      )
  | inl none_found ↦
      let absent = rw none_found at ih in
      elim (Bool-cases (is_dot c && not (any is_separator s))) [
        | inl starts ↦ rw (dotted-none c s none_found, starts, absent) (ground arith)
        | inr no_start ↦ rw (
          dotted-none c s none_found,
          no_start,
          absent,
          not_whole c s w (no_dot, no_sep) no_start,
        )
      ]
]

suffix-ext : (w s : Bytes) → IsPlain w → Agrees w s (dotted s)
unfolding has_suffix dotted
suffix-ext w [] h = refl
suffix-ext w (c ∷ s) h = Agrees-cons w c s h (suffix-ext w s h)

-- The end of a path and its extension tell the same files to be databases, so the two programs and
-- the watcher agree on every path.
pub is_database_path-is_database :
    (path : Bytes)
    → (is_database_path path ≡ is_database path) × (is_database path ≡ is_access_file path)
unfolding is_access_file equal_fold ext
is_database_path-is_database path = (
  rw (suffix-ext (codes "mdb") path (refl, refl), suffix-ext (codes "accdb") path (refl, refl)),
  refl,
)
