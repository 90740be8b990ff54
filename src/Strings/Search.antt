-- ===== src/Strings/Search.antt =====
-- Laws of `has_prefix` and `index`.
use mdbapi.Base.{
  ℕ, zero, suc, ◌+◌, ◌≤◌, ◌≡◌, refl, true, false, Option, none, some, [], ◌∷◌, ◌++◌, arith, ◌==◌,
  ◌>>=◌, length, take, Bool-cases, Option-cases, inl, inr, every, not, ap,
}
use mdbapi.Strings.{Bytes, has_prefix, index}

-- `p` does not occur in `s`
abbrev pub Absent : Bytes → Bytes → Type 0
Absent p s = index s p ≡ none

pub has_prefix_self : (p t : Bytes) → has_prefix (p ++ t) p ≡ true
unfolding has_prefix
has_prefix_self [] t = refl
has_prefix_self (d ∷ p) t = ground (arith, has_prefix_self p t)

has_prefix-take : (n : ℕ) (s p : Bytes) → has_prefix (take n s) p ≡ true → has_prefix s p ≡ true
unfolding has_prefix
has_prefix-take n s [] h = refl
has_prefix-take zero s (d ∷ p) h = cc
has_prefix-take (suc n) [] (d ∷ p) h = h
has_prefix-take (suc n) (c ∷ s) (d ∷ p) h = ground (arith, has_prefix-take n s p)

pub Absent-tail : (c : ℕ) (s p : Bytes) → Absent p (c ∷ s) → Absent p s
unfolding index
Absent-tail c s p h = ground arith

pub Absent-head : (c : ℕ) (s p : Bytes) → Absent p (c ∷ s) → has_prefix (c ∷ s) p ≡ false
unfolding index
Absent-head c s p h = ground arith

pub Absent-cons :
    (c : ℕ) (s p : Bytes) → has_prefix (c ∷ s) p ≡ false → Absent p s → Absent p (c ∷ s)
unfolding index
Absent-cons c s p h k = rw (h, k)

pub index-suc :
    (c : ℕ) (s p : Bytes) (i : ℕ)
    → index (c ∷ s) p ≡ some (suc i)
    → (has_prefix (c ∷ s) p ≡ false) × (index s p ≡ some i)
unfolding index
index-suc c s p i h = ground arith

pub index_zero : (s p : Bytes) → index s p ≡ some 0 → has_prefix s p ≡ true
unfolding index
index_zero [] p h = ground arith
index_zero (c ∷ s) p h = ground arith

pub Absent-nil : (d : ℕ) (p : Bytes) → Absent (d ∷ p) []
unfolding index has_prefix
Absent-nil d p = refl

-- What stands before the first occurrence of a text has no occurrence of it.
pub Absent-take :
    (s : Bytes) (d : ℕ) (p : Bytes) (i : ℕ) → index s (d ∷ p) ≡ some i → Absent (d ∷ p) (take i s)
Absent-take s d p zero h = Absent-nil d p
Absent-take [] d p (suc i) h = Absent-nil d p
Absent-take (c ∷ s) d p (suc i) h =
    let (here, later) = index-suc c s (d ∷ p) i h in
    let rest = Absent-take s d p i later in
    elim (Bool-cases (has_prefix (c ∷ take i s) (d ∷ p))) [
      | inl yes_here ↦ cc (here, has_prefix-take (suc i) (c ∷ s) (d ∷ p) yes_here)
      | inr not_here ↦ Absent-cons c (take i s) (d ∷ p) not_here rest
    ]

has_prefix-length : (s p : Bytes) → has_prefix s p ≡ true → length p ≤ length s
unfolding has_prefix
has_prefix-length s [] h = omega arith
has_prefix-length [] (d ∷ p) h = cc
has_prefix-length (c ∷ s) (d ∷ p) h = ground (arith, has_prefix-length s p)

-- An occurrence lies inside the text.
pub index_bound : (s p : Bytes) (i : ℕ) → index s p ≡ some i → i + length p ≤ length s
index_bound s p zero h = omega (arith, has_prefix-length s p (index_zero s p h))
index_bound [] p (suc i) h = absurd (unfold index in ground arith)
index_bound (c ∷ s) p (suc i) h = omega (arith, index_bound s p i (index-suc c s p i h).1)

-- The text `w` has no byte `d`.
abbrev pub Off : ℕ → Bytes → Type 0
Off d w = every (λ c. not (c == d)) w ≡ true

abbrev pub shift : ℕ → Option ℕ → Option ℕ
shift n none = none
shift n (some i) = some (n + i)

not_here : (c d : ℕ) (s p : Bytes) → not (c == d) ≡ true → has_prefix (c ∷ s) (d ∷ p) ≡ false
unfolding has_prefix
not_here c d s p h = ground arith

index_skip :
    (c : ℕ) (s p : Bytes)
    → has_prefix (c ∷ s) p ≡ false
    → index (c ∷ s) p ≡ (index s p >>= λ i. some (suc i))
unfolding index
index_skip c s p h = rw h

-- In front of a text without the first byte of `p`, the search finds nothing new.
pub index-append-Off :
    (w s : Bytes) (d : ℕ) (p : Bytes)
    → Off d w
    → index (w ++ s) (d ∷ p) ≡ shift (length w) (index s (d ∷ p))
index-append-Off [] s d p h = elim (Option-cases (index s (d ∷ p))) [
  | inl e ↦ rw e
  | inr (i, e) ↦ rw e (ap some (omega arith))
]
index-append-Off (c ∷ w) s d p h =
    rw
      (
        index_skip c (w ++ s) (d ∷ p) (not_here c d (w ++ s) p (ground arith)),
        index-append-Off w s d p (ground arith),
      )
      (elim (Option-cases (index s (d ∷ p))) [
        | inl e ↦ rw e
        | inr (i, e) ↦ rw e (ap some (omega arith))
      ])
