-- ===== src/Watcher/Backoff.antt =====
-- The interval between two polls, in the loop of `Run` of internal/watcher/watcher.go, in
-- nanoseconds.
pub mod Interval
use mdbapi.Base.{
  ℕ, zero, suc, ◌+◌, ◌*◌, ◌^◌, ◌≤◌, ◌<◌, ◌≡◌, refl, Bool, true, false, List, [], ◌∷◌, ltb, leb,
  if◌then◌else◌, arith, Bool-cases, inl, inr,
}
use mdbapi.Base.Int.{ℤ, pos, negsuc, ltb_ℤ, leb_ℤ, ◌+ℤ◌, +ℤ-pos}

abbrev pub max_poll_backoff : ℤ
max_poll_backoff = pos 300000000000

-- after a poll that found so many databases
unfoldable pub backoff : ℤ → ℤ → ℕ → ℤ
backoff base current found =
    let doubled = current +ℤ current in
    if ltb 0 found
    then base
    else if ltb_ℤ current max_poll_backoff
    then (if ltb_ℤ max_poll_backoff doubled then max_poll_backoff else doubled)
    else current

unfoldable pub after_polls : ℤ → ℤ → List ℕ → ℤ
after_polls base current [] = current
after_polls base current (found ∷ founds) = after_polls base (backoff base current found) founds
