-- ===== src/Watcher/Debounce.antt =====
-- `fsnotifyLoop` of internal/watcher/watcher.go: events are collected until it is quiet, or for two
-- seconds at most. Time is in nanoseconds; the calls of `tryRegister` are kept as a list.
pub mod Latency
use mdbapi.Base.{
  ℕ, zero, suc, ◌+◌, ◌≤◌, ◌≡◌, ◌⊎◌, Bool, true, false, Option, none, some, List, [], ◌∷◌, ◌++◌,
  if◌then◌else◌, map, length,
}
use mdbapi.Base.Assoc.{insert, keys}
use mdbapi.Strings.{Bytes, bytes_eq}
use mdbapi.Watcher.{is_access_file}

abbrev pub debounce_quiet : ℕ
debounce_quiet = 500000000

abbrev pub debounce_max : ℕ
debounce_max = 2000000000

-- a call of tryRegister
pub record Call : Type 0 where
  pub at : ℕ
  pub path : Bytes

-- whether the loop goes on, and how it returned: when the context was done, or when fsnotify had
-- closed one of its channels
pub data Ending : Type 0 where
  running : Ending
  cancelled : Ending
  closed : Ending

-- the variables of the loop, a timer by the time at which it fires, and the calls made so far
pub record Loop : Type 0 where
  pub pending : List (Bytes × Unit {0})
  pub quiet_timer : Option ℕ
  pub max_timer : Option ℕ
  pub calls : List Call
  pub ending : Ending

abbrev pub start : Loop
start = record { pending = []; quiet_timer = none; max_timer = none; calls = []; ending = running }

abbrev pub call_at : ℕ → Bytes → Call
call_at now path = record { at = now; path = path }

unfoldable pub flush : ℕ → Loop → Loop
flush now l = record l {
  pending = [];
  quiet_timer = none;
  max_timer = none;
  calls = l.calls ++ map (call_at now) (keys l.pending);
}

abbrev pub or_start : ℕ → Option ℕ → Option ℕ
or_start due none = some due
or_start due (some d) = some d

-- an event on a file, with whether it is a creation; `clean` is filepath.Clean
unfoldable pub on_event : (Bytes → Bytes) → ℕ → Bool → Bytes → Loop → Loop
on_event clean now is_create name l =
    if is_create
    then (if is_access_file name
        then (record l {
          pending = insert (clean name) tt l.pending;
          quiet_timer = some (now + debounce_quiet);
          max_timer = or_start (now + debounce_max) l.max_timer;
        })
        else l)
    else l

-- no armed timer is passed by
abbrev pub NotPast : ℕ → Option ℕ → Type 0
NotPast now none = Unit
NotPast now (some d) = now ≤ d

-- an event that was collected: its time, its path, and the number of the calls before it
pub record Collected : Type 0 where
  pub at : ℕ
  pub path : Bytes
  pub earlier : ℕ

abbrev pub collected_at : ℕ → Bytes → Loop → Collected
collected_at now path l = record { at = now; path = path; earlier = length l.calls }

-- The rounds of the select, each at a time, until the loop returns; the list holds the events that
-- were collected, the last one first.
pub data Run (clean : Bytes → Bytes) : List Collected → ℕ → Loop → Type 0 where
  begin : (now : ℕ) → Run clean [] now start
  wait :
      {log : List Collected} {now : ℕ} {l : Loop} (later : ℕ)
      → Run clean log now l
      → l.ending ≡ running
      → now ≤ later
      → NotPast later l.quiet_timer
      → NotPast later l.max_timer
      → Run clean log later l
  collect :
      {log : List Collected} {now : ℕ} {l : Loop} (name : Bytes)
      → Run clean log now l
      → l.ending ≡ running
      → is_access_file name ≡ true
      → Run clean (collected_at now (clean name) l ∷ log) now (on_event clean now true name l)
  ignore :
      {log : List Collected} {now : ℕ} {l : Loop} (is_create : Bool) (name : Bytes)
      → Run clean log now l
      → l.ending ≡ running
      → (is_create ≡ false) ⊎ (is_access_file name ≡ false)
      → Run clean log now (on_event clean now is_create name l)
  quiet :
      {log : List Collected} {now : ℕ} {l : Loop}
      → Run clean log now l
      → l.ending ≡ running
      → l.quiet_timer ≡ some now
      → Run clean log now (flush now l)
  full :
      {log : List Collected} {now : ℕ} {l : Loop}
      → Run clean log now l
      → l.ending ≡ running
      → l.max_timer ≡ some now
      → Run clean log now (flush now l)
  -- an error of fsnotify is logged
  error :
      {log : List Collected} {now : ℕ} {l : Loop}
      → Run clean log now l
      → l.ending ≡ running
      → Run clean log now l
  -- the context is done: the last flush
  cancel :
      {log : List Collected} {now : ℕ} {l : Loop}
      → Run clean log now l
      → l.ending ≡ running
      → Run clean log now (record (flush now l) { ending = cancelled })
  -- Events or Errors is closed: the buffer is dropped
  close :
      {log : List Collected} {now : ℕ} {l : Loop}
      → Run clean log now l
      → l.ending ≡ running
      → Run clean log now (record l { ending = closed })
