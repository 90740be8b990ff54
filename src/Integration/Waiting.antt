-- ===== src/Integration/Waiting.antt =====
-- `waitForHealth` of cmd/integration/main.go. The time is in milliseconds.
use mdbapi.Base.{
  ℕ, zero, suc, ◌+◌, ◌*◌, ◌/◌, ◌≤◌, ◌<◌, ◌≡◌, ◌⊎◌, refl, Bool, true, false, ◌&&◌, Option, none,
  some, ◌==◌, ltb, arith, if◌then◌else◌, is_some, not, Bool-cases, inl, inr,
}
use mdbapi.Mdb.Errors.{Result, ok, err, external}
use mdbapi.Strings.{codes}
use mdbapi.Integration.Client.{Reply}

-- a request to the health route that is made at a time: how long it takes, and its answer
pub record Attempt : Type 0 where
  pub takes : ℕ
  pub answer : Result Reply

abbrev pub is_healthy : Result Reply → Bool
is_healthy (err e) = false
is_healthy (ok r) = r.status == 200 && not (is_some r.envelope.error)

abbrev pub pause : ℕ
pause = 200

-- The loop from a time on, for so many rounds at most; `none` is a loop that goes on.
unfoldable pub wait_from : (ℕ → Attempt) → ℕ → ℕ → ℕ → Option (Result (Unit {0}))
wait_from at deadline zero now = none
wait_from at deadline (suc n) now =
    let a = at now in
    let later = wait_from at deadline n (now + a.takes + pause) in
    if ltb now deadline
    then (if is_healthy a.answer then some (ok tt) else later)
    else some (err (external (codes "timeout waiting for health")))

-- waitForHealth, from a time on
unfoldable pub wait_for_health : (ℕ → Attempt) → ℕ → ℕ → ℕ → Option (Result (Unit {0}))
wait_for_health at rounds now timeout = wait_from at (now + timeout) rounds now

-- the next request behind one
abbrev pub after_attempt : (ℕ → Attempt) → ℕ → ℕ
after_attempt at t = t + (at t).takes + pause

-- the times at which a request is made, if all before it fail
pub data Tried (at : ℕ → Attempt) (start : ℕ) : ℕ → Type 0 where
  first : Tried at start start
  next : {t : ℕ} → Tried at start t → Tried at start (after_attempt at t)

Tried-le : (at : ℕ → Attempt) (start t : ℕ) → Tried at start t → start ≤ t
Tried-le at start t first = omega arith
Tried-le at start _ (next {t} h) = omega (arith, Tried-le at start t h)

Tried-earlier :
    (at : ℕ → Attempt) (start t : ℕ) → Tried at (after_attempt at start) t → Tried at start t
Tried-earlier at start t first = next first
Tried-earlier at start _ (next {t} h) = next (Tried-earlier at start t h)

Tried-split :
    (at : ℕ → Attempt) (start t : ℕ)
    → Tried at start t
    → (t ≡ start) ⊎ Tried at (after_attempt at start) t
Tried-split at start t first = inl refl
Tried-split at start _ (next {t} h) = elim (Tried-split at start t h) [
  | inl e ↦ inr (rw e first)
  | inr later ↦ inr (next later)
]

-- what the wait comes to
abbrev pub IsOutcome : (ℕ → Attempt) → ℕ → ℕ → Option (Result (Unit {0})) → Type 0
IsOutcome at start deadline none = ⊥
IsOutcome at start deadline (some (ok _)) =
    (t : ℕ) × Tried at start t × (t < deadline) × (is_healthy (at t).answer ≡ true)
IsOutcome at start deadline (some (err _)) =
    (t : ℕ) → Tried at start t → t < deadline → is_healthy (at t).answer ≡ false

later-IsOutcome :
    (at : ℕ → Attempt) (start deadline : ℕ) (o : Option (Result (Unit {0})))
    → is_healthy (at start).answer ≡ false
    → IsOutcome at (after_attempt at start) deadline o
    → IsOutcome at start deadline o
later-IsOutcome at start deadline none h out = out
later-IsOutcome at start deadline (some (ok _)) h (t, tried, soon, good) =
    (t, Tried-earlier at start t tried, soon, good)
later-IsOutcome at start deadline (some (err _)) h out = λ t tried soon.
    elim (Tried-split at start t tried) [ inl e ↦ rw e h | inr later ↦ out t later soon ]

late-IsOutcome :
    (at : ℕ → Attempt) (deadline n now : ℕ)
    → ltb now deadline ≡ false
    → IsOutcome at now deadline (wait_from at deadline (suc n) now)
unfolding wait_from
late-IsOutcome at deadline n now late =
    rw late (λ t tried soon. absurd (ground (arith, late, Tried-le at now t tried)))

wait_from-IsOutcome :
    (at : ℕ → Attempt) (deadline n now : ℕ)
    → deadline ≤ now + pause * n
    → IsOutcome at now deadline (wait_from at deadline (suc n) now)
unfolding wait_from
wait_from-IsOutcome at deadline zero now h = late-IsOutcome at deadline zero now (ground arith)
wait_from-IsOutcome at deadline (suc n) now h = elim (Bool-cases (ltb now deadline)) [
  | inr late ↦ late-IsOutcome at deadline (suc n) now late
  | inl soon ↦ elim (Bool-cases (is_healthy (at now).answer)) [
    | inl good ↦ rw (soon, good) (now, first, ground (arith, soon), good)
    | inr bad ↦
        let rest = wait_from-IsOutcome at deadline n (after_attempt at now) (omega arith) in
        rw (soon, bad) (later-IsOutcome at now deadline _ bad rest)
  ]
]

-- With a round for every pause that fits in the timeout, and one more, the wait ends: with success
-- if one of the requests that are made before the deadline finds the server healthy, and with an
-- error if none of them does.
pub wait_for_health-IsOutcome :
    (at : ℕ → Attempt) (now timeout : ℕ)
    → IsOutcome at now (now + timeout) (wait_for_health at (suc (timeout / pause + 1)) now timeout)
unfolding wait_for_health
wait_for_health-IsOutcome at now timeout =
    wait_from-IsOutcome at (now + timeout) (timeout / pause + 1) now (omega arith)
