-- ===== src/Watcher/Backoff/Interval.antt =====
-- How the poll interval of internal/watcher/watcher.go grows and where it stays.
use mdbapi.Base.{
  ℕ, zero, suc, ◌+◌, ◌*◌, ◌^◌, ◌≤◌, ◌≡◌, refl, ap, ◌∙◌, List, [], ◌∷◌, ltb, leb, if◌then◌else◌,
  arith, Bool-cases, inl, inr,
}
use mdbapi.Base.Int.{ℤ, pos, ltb_ℤ, +ℤ-pos}
use mdbapi.Watcher.Backoff.{max_poll_backoff, backoff, after_polls}

abbrev pub limit : ℕ
limit = 300000000000

abbrev pub capped : ℕ → ℕ
capped n = if leb n limit then n else limit

-- so many polls that find nothing
abbrev pub idle : ℕ → List ℕ
idle zero = []
idle (suc k) = 0 ∷ idle k

backoff_idle : (base : ℤ) (c : ℕ) → c ≤ limit → backoff base (pos c) 0 ≡ pos (capped (c + c))
unfolding backoff
backoff_idle base c h = rw (+ℤ-pos c c (omega arith)) (ground arith)

scaled : (n p : ℕ) → 1 ≤ p → n ≤ n * p
scaled zero p h = omega arith
scaled (suc n) p h = omega (arith, scaled n p h)

power_pos : (k : ℕ) → 1 ≤ 2 ^ k
power_pos zero = omega arith
power_pos (suc k) = omega (arith, power_pos k)

regroup : (c p : ℕ) → (c + c) * p ≡ c * (2 * p)
regroup c p = grind arith

power_suc : (k : ℕ) → 2 * 2 ^ k ≡ 2 ^ suc k
power_suc k = omega arith

capped_twice : (c p : ℕ) → 1 ≤ p → capped (capped (c + c) * p) ≡ capped (c * (2 * p))
capped_twice c p h = elim (Bool-cases (leb (c + c) limit)) [
  | inl small ↦ rw small (ap capped (regroup c p))
  | inr large ↦ rw large (ground (arith, large, scaled (c + c) p h, regroup c p))
]

capped_start : (c : ℕ) → c ≤ limit → c ≡ capped (c * 1)
capped_start c h = ground arith

capped_limit : (n : ℕ) → capped n ≤ limit
capped_limit n = ground arith

-- After k polls that find nothing, an interval of c is c * 2 ^ k, or five minutes if that is less.
pub after_polls-idle :
    (base : ℤ) (c k : ℕ) → c ≤ limit → after_polls base (pos c) (idle k) ≡ pos (capped (c * 2 ^ k))
unfolding after_polls
after_polls-idle base c zero h = ap pos (capped_start c h)
after_polls-idle base c (suc k) h =
    ap (λ i. after_polls base i (idle k)) (backoff_idle base c h)
    ∙ after_polls-idle base (capped (c + c)) k (capped_limit (c + c))
    ∙ ap pos (capped_twice c (2 ^ k) (power_pos k) ∙ ap (λ q. capped (c * q)) (power_suc k))

-- the interval lies between its start and five minutes
abbrev pub IsInterval : ℕ → ℤ → Type 0
IsInterval b i = (n : ℕ) × (i ≡ pos n) × (b ≤ n) × (n ≤ limit)

pub backoff-IsInterval :
    (b n found : ℕ) → b ≤ n → n ≤ limit → IsInterval b (backoff (pos b) (pos n) found)
unfolding backoff
backoff-IsInterval b n found low high = elim (Bool-cases (ltb 0 found)) [
  | inl some_found ↦ rw some_found (b, refl, omega arith, omega arith)
  | inr none_found ↦ elim (Bool-cases (ltb_ℤ (pos n) max_poll_backoff)) [
    | inr at_limit ↦ rw (none_found, at_limit) (n, refl, low, high)
    | inl below ↦
        rw (none_found, below, +ℤ-pos n n (omega arith))
          (elim (Bool-cases (ltb_ℤ max_poll_backoff (pos (n + n)))) [
            | inl over ↦ rw over (limit, refl, ground arith, omega arith)
            | inr under ↦ rw under (n + n, refl, omega arith, ground arith)
          ])
  ]
]

after_polls_from :
    (b : ℕ) (i : ℤ) (founds : List ℕ) → IsInterval b i → IsInterval b (after_polls (pos b) i founds)
unfolding after_polls
after_polls_from b i [] h = h
after_polls_from b i (found ∷ founds) (n, e, low, high) = rw e (
    after_polls_from b (backoff (pos b) (pos n) found) founds
      (backoff-IsInterval b n found low high))

-- Whatever the polls find, the interval stays between the configured one and five minutes, if the
-- configured one is no more.
pub after_polls-IsInterval :
    (b : ℕ) (founds : List ℕ) → b ≤ limit → IsInterval b (after_polls (pos b) (pos b) founds)
after_polls-IsInterval b founds h = after_polls_from b (pos b) founds (b, refl, omega arith, h)
