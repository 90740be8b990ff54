-- ===== src/Strings/Trim.antt =====
-- Trimming takes away only white space at the ends, and the upper case of ASCII is byte by byte.
use mdbapi.Base.{
  every, ℕ, zero, suc, ◌≤◌, ◌≡◌, refl, ap, Bool, true, false, [], ◌∷◌, ◌++◌, map, arith, ltb,
  length, Bool-cases, inl, inr,
}
use mdbapi.Strings.Search.{Absent, Absent-nil, Absent-tail, Absent-head, Absent-cons}
use mdbapi.Strings.{
  Bytes, has_prefix, trim_space, trim_end, skip_spaces, is_blank, is_space, space_width, upper_from,
  to_upper, upper_byte,
}

-- A byte of ASCII that is no white space begins none.
width_seen : (c : ℕ) (s : Bytes) → is_space c ≡ false → ltb c 128 ≡ true → space_width c s ≡ 0
unfolding space_width
width_seen c [] h a = ground arith
width_seen c (d ∷ []) h a = ground arith
width_seen c (d ∷ e ∷ s) h a = ground arith

-- White space does not reach over a byte of ASCII.
width_ends :
    (c : ℕ) (p : Bytes) (d : ℕ) (s : Bytes)
    → ltb d 128 ≡ true
    → space_width c (p ++ d ∷ s) ≤ suc (length p)
unfolding space_width
width_ends c [] d [] a = ground arith
width_ends c [] d (e ∷ s) a = ground arith
width_ends c (x ∷ []) d s a = ground arith
width_ends c (x ∷ y ∷ p) d s a = ground arith

blank_behind :
    (w n : ℕ) (t : Bytes)
    → w ≤ suc n
    → ((k : ℕ) → k ≤ n → is_blank k t ≡ false)
    → (elim w [ zero ↦ false | suc skip ↦ is_blank skip t ]) ≡ false
blank_behind zero n t le h = refl
blank_behind (suc skip) n t le h = h skip (omega (arith, le))

is_blank-append :
    (k : ℕ) (p : Bytes) (d : ℕ) (s : Bytes)
    → is_space d ≡ false
    → ltb d 128 ≡ true
    → k ≤ length p
    → is_blank k (p ++ d ∷ s) ≡ false
unfolding is_blank
is_blank-append zero [] d s h a b = rw (width_seen d s h a, is_blank)
is_blank-append (suc k) [] d s h a b = absurd (omega (arith, b))
is_blank-append (suc k) (c ∷ p) d s h a b = is_blank-append k p d s h a (omega (arith, b))
is_blank-append zero (c ∷ p) d s h a b =
    blank_behind (space_width c (p ++ d ∷ s)) (length p) (p ++ d ∷ s) (width_ends c p d s a)
      (λ k le. is_blank-append k p d s h a le)

-- Trimming the end stops at a byte of ASCII that is no white space.
pub trim_end-append :
    (p : Bytes) (d : ℕ) (s : Bytes)
    → is_space d ≡ false
    → ltb d 128 ≡ true
    → trim_end (p ++ d ∷ s) ≡ p ++ d ∷ trim_end s
unfolding trim_end
trim_end-append [] d s h a = rw (is_blank-append 0 [] d s h a (omega arith))
trim_end-append (c ∷ p) d s h a =
    rw (is_blank-append 0 (c ∷ p) d s h a (omega arith), trim_end-append p d s h a)

skip_spaces-seen :
    (c : ℕ) (s : Bytes) → is_space c ≡ false → ltb c 128 ≡ true → skip_spaces 0 (c ∷ s) ≡ c ∷ s
unfolding skip_spaces
skip_spaces-seen c s h a = rw (width_seen c s h a, skip_spaces)

-- A text that begins with a byte of ASCII that is no white space is trimmed at its end only.
pub trim_space-cons :
    (c : ℕ) (s : Bytes)
    → is_space c ≡ false
    → ltb c 128 ≡ true
    → trim_space (c ∷ s) ≡ c ∷ trim_end s
unfolding trim_space
trim_space-cons c s h a = rw (skip_spaces-seen c s h a) (trim_end-append [] c s h a)

width_blank : (c : ℕ) (s : Bytes) → is_space c ≡ true → space_width c s ≡ 1
unfolding space_width
width_blank c s h = rw h

-- A blank of ASCII at the front goes away.
pub trim_space_blank : (c : ℕ) (s : Bytes) → is_space c ≡ true → trim_space (c ∷ s) ≡ trim_space s
unfolding trim_space skip_spaces
trim_space_blank c s h = rw (width_blank c s h, skip_spaces)

pub to_upper-cons :
    (c : ℕ) (s : Bytes) → ltb c 128 ≡ true → to_upper (c ∷ s) ≡ upper_byte c ∷ to_upper s
unfolding upper_from
to_upper-cons c [] a = refl
to_upper-cons c (d ∷ s) a = ground arith

abbrev is_ascii : Bytes → Bool
is_ascii = every (λ c. ltb c 128)

-- Bytes of ASCII in front of a text keep their upper case to themselves.
pub to_upper-append :
    (w u : Bytes) → is_ascii w ≡ true → to_upper (w ++ u) ≡ map upper_byte w ++ to_upper u
to_upper-append [] u h = refl
to_upper-append (c ∷ w) u h =
    rw (to_upper-cons c (w ++ u) (ground arith))
      (ap (λ (s : Bytes). upper_byte c ∷ s) (to_upper-append w u (ground arith)))

skip_on :
    (w : ℕ) (p : Bytes) (c : ℕ) (s : Bytes)
    → Absent p (c ∷ s)
    → ((k : ℕ) → Absent p (skip_spaces k s))
    → Absent p (elim w [ zero ↦ c ∷ s | suc skip ↦ skip_spaces skip s ])
skip_on zero p c s h behind = h
skip_on (suc skip) p c s h behind = behind skip

Absent-skip_spaces : (k : ℕ) (p s : Bytes) → Absent p s → Absent p (skip_spaces k s)
unfolding skip_spaces
Absent-skip_spaces k p [] h = h
Absent-skip_spaces (suc k) p (c ∷ s) h = Absent-skip_spaces k p s (Absent-tail c s p h)
Absent-skip_spaces zero p (c ∷ s) h =
    skip_on (space_width c s) p c s h (λ k. Absent-skip_spaces k p s (Absent-tail c s p h))

trim_end-has_prefix : (s p : Bytes) → has_prefix (trim_end s) p ≡ true → has_prefix s p ≡ true
unfolding has_prefix trim_end
trim_end-has_prefix s [] h = refl
trim_end-has_prefix [] (d ∷ p) h = h
trim_end-has_prefix (c ∷ s) (d ∷ p) h = ground (arith, trim_end-has_prefix s p)

kept_head :
    (c : ℕ) (s : Bytes) (d : ℕ) (p : Bytes)
    → has_prefix (c ∷ s) (d ∷ p) ≡ false
    → has_prefix (c ∷ trim_end s) (d ∷ p) ≡ false
unfolding has_prefix
kept_head c s d p h = ground (arith, trim_end-has_prefix s p)

Absent-trim_end : (d : ℕ) (p s : Bytes) → Absent (d ∷ p) s → Absent (d ∷ p) (trim_end s)
unfolding trim_end
Absent-trim_end d p [] h = h
Absent-trim_end d p (c ∷ s) h = elim (Bool-cases (is_blank 0 (c ∷ s))) [
  | inl gone ↦ rw gone (Absent-nil d p)
  | inr kept ↦ rw kept (
      Absent-cons c _ (d ∷ p) (kept_head c s d p (Absent-head c s (d ∷ p) h))
        (Absent-trim_end d p s (Absent-tail c s (d ∷ p) h)))
]

-- Trimming adds no occurrence of a text.
pub Absent-trim_space : (d : ℕ) (p s : Bytes) → Absent (d ∷ p) s → Absent (d ∷ p) (trim_space s)
unfolding trim_space
Absent-trim_space d p s h = Absent-trim_end d p _ (Absent-skip_spaces 0 (d ∷ p) s h)
