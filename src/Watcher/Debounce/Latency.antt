-- ===== src/Watcher/Debounce/Latency.antt =====
-- No event that `fsnotifyLoop` of internal/watcher/watcher.go collects is lost or kept for long.
use mdbapi.Base.{
  ℕ, zero, suc, ◌+◌, ◌≤◌, ◌≡◌, refl, ◌⊎◌, inl, inr, Bool, true, false, ◌&&◌, ◌||◌, Option, none,
  some, List, [], ◌∷◌, ◌++◌, map, any, All, is_some, arith, leb, drop, length, length-append,
  Bool-cases,
}
use mdbapi.Base.Assoc.{lookup, insert, keys, lookup-insert, lookup-cons, lookup-nil}
use mdbapi.Strings.{Bytes, str_eq, str_eq_iff, bytes_eq}
use mdbapi.Watcher.{is_access_file}
use mdbapi.Watcher.Debounce.{
  debounce_quiet, debounce_max, Call, Ending, running, cancelled, closed, Loop, call_at, flush,
  or_start, on_event, NotPast, Collected, collected_at, Run, begin, wait, collect, ignore, quiet,
  full, error, cancel, close,
}

-- a call for the path of an event, made behind the event and within two seconds
abbrev pub is_call_for : Collected → Call → Bool
is_call_for e c = str_eq c.path e.path && leb c.at (e.at + debounce_max)

abbrev pub is_served : Collected → Loop → Bool
is_served e l = any (is_call_for e) (drop e.earlier l.calls)

abbrev pub waiting : Bytes → Loop → Bool
waiting path l = is_some (lookup path l.pending)

-- the limit is armed, and is due by the time
abbrev DueBy : ℕ → Loop → Type 0
DueBy t l = (d : ℕ) × (l.max_timer ≡ some d) × (d ≤ t)

-- a collected event was passed on, or waits for a timer
abbrev IsHandled : Loop → Collected → Type 0
IsHandled l e =
    (e.earlier ≤ length l.calls)
    × ((is_served e l ≡ true) ⊎ ((waiting e.path l ≡ true) × DueBy (e.at + debounce_max) l))

record IsTimely (log : List Collected) (now : ℕ) (l : Loop) : Type 0 where
  armed : (d : ℕ) → l.max_timer ≡ some d → (now ≤ d) × (d ≤ now + debounce_max)
  handled : All (IsHandled l) log
  ended : (l.ending ≡ running) ⊎ ((l.ending ≡ closed) ⊎ (l.pending ≡ []))

All-mono {ℓ} :
    {A : Type ℓ} (P Q : A → Type 0) (xs : List A) → ((x : A) → P x → Q x) → All P xs → All Q xs
All-mono P Q [] f h = tt
All-mono P Q (x ∷ xs) f (hx, h) = (f x hx, All-mono P Q xs f h)

any-append {ℓ} :
    {A : Type ℓ} (p : A → Bool) (xs ys : List A) → any p (xs ++ ys) ≡ (any p xs || any p ys)
any-append p [] ys = refl
any-append p (x ∷ xs) ys = ground (arith, any-append p xs ys)

any-drop {ℓ} :
    {A : Type ℓ} (p : A → Bool) (k : ℕ) (xs ys : List A)
    → k ≤ length xs
    → any p (drop k (xs ++ ys)) ≡ (any p (drop k xs) || any p ys)
any-drop p zero xs ys h = any-append p xs ys
any-drop p (suc k) [] ys h = absurd (omega (arith, h))
any-drop p (suc k) (x ∷ xs) ys h = any-drop p k xs ys (omega (arith, h))

any-keys :
    (e : Collected) (now : ℕ) (m : List (Bytes × Unit {0}))
    → now ≤ e.at + debounce_max
    → is_some (lookup e.path m) ≡ true
    → any (is_call_for e) (map (call_at now) (keys m)) ≡ true
any-keys e now [] early h = absurd (ground (arith, lookup-nil {V = Unit {0}} e.path))
any-keys e now ((k, u) ∷ m) early h = elim (Bool-cases (str_eq k e.path)) [
  | inl same ↦ ground (arith, same, early)
  | inr other ↦ ground (arith, other, lookup-cons e.path k u m, any-keys e now m early)
]

flush-IsHandled :
    (now : ℕ) (l : Loop)
    → ((d : ℕ) → l.max_timer ≡ some d → (now ≤ d) × (d ≤ now + debounce_max))
    → (e : Collected) → IsHandled l e
    → IsHandled (flush now l) e
unfolding flush
flush-IsHandled now l armed e (known, inl h) = (
  omega (arith, known, length-append l.calls (map (call_at now) (keys l.pending))),
  inl (
      rw
        (any-drop (is_call_for e) e.earlier l.calls (map (call_at now) (keys l.pending)) known, h)),
)
flush-IsHandled now l armed e (known, inr (h, (d, due, soon))) =
    let early : now ≤ e.at + debounce_max = omega (arith, (armed d due).0, soon) in
    (
      omega (arith, known, length-append l.calls (map (call_at now) (keys l.pending))),
      inl (
          ground (
            arith,
            any-drop (is_call_for e) e.earlier l.calls (map (call_at now) (keys l.pending)) known,
            any-keys e now l.pending early h,
          )),
    )

flush-IsTimely :
    (log : List Collected) (now : ℕ) (l : Loop) (ending : Ending)
    → IsTimely log now l
    → IsTimely log now (record (flush now l) { ending = ending })
flush-IsTimely log now l ending v = record {
  armed = λ d e. unfold flush in absurd (cc);
  handled =
      All-mono (IsHandled l) (IsHandled (flush now l)) log (flush-IsHandled now l v.armed)
        v.handled;
  ended = unfold flush in inr (inr refl);
}

-- an event at a time, with the limit armed or not
module _ (now : ℕ) (path : Bytes) (l : Loop) where
  abbrev collected : Loop
  collected = record l {
    pending = insert path tt l.pending;
    quiet_timer = some (now + debounce_quiet);
    max_timer = or_start (now + debounce_max) l.max_timer;
  }

  collected_armed :
      (m : Option ℕ)
      → ((d : ℕ) → m ≡ some d → (now ≤ d) × (d ≤ now + debounce_max))
      → (d : ℕ) × (or_start (now + debounce_max) m ≡ some d) × (now ≤ d) × (d ≤ now + debounce_max)
  collected_armed none h = (now + debounce_max, refl, omega arith, omega arith)
  collected_armed (some d) h = (d, refl, (h d refl).0, (h d refl).1)

  collected-IsHandled : (e : Collected) → IsHandled l e → IsHandled collected e
  collected-IsHandled e (known, inl h) = (known, inl h)
  collected-IsHandled e (known, inr (h, (d, due, soon))) =
      (known, inr (ground (arith, lookup-insert path e.path (tt {0}) l.pending), (d, rw due, soon)))

  collected-IsTimely :
      (log : List Collected)
      → l.ending ≡ running
      → IsTimely log now l
      → IsTimely (collected_at now path l ∷ log) now collected
  collected-IsTimely log on v =
      let (d, e, low, high) = collected_armed l.max_timer v.armed in
      record {
        armed =
            λ d' e'. let same : d ≡ d' = cc (e, e') in (omega (arith, same), omega (arith, same));
        handled = (
          (
            omega arith,
            inr (
              ground (arith, lookup-insert path path (tt {0}) l.pending, str_eq_iff path path),
              (d, e, high),
            ),
          ),
          All-mono (IsHandled l) (IsHandled collected) log collected-IsHandled v.handled,
        );
        ended = inl on;
      }

on_event_collects :
    (clean : Bytes → Bytes) (now : ℕ) (name : Bytes) (l : Loop)
    → is_access_file name ≡ true
    → on_event clean now true name l ≡ collected now (clean name) l
unfolding on_event
on_event_collects clean now name l h = rw h

on_event_ignores :
    (clean : Bytes → Bytes) (now : ℕ) (is_create : Bool) (name : Bytes) (l : Loop)
    → (is_create ≡ false) ⊎ (is_access_file name ≡ false)
    → on_event clean now is_create name l ≡ l
unfolding on_event
on_event_ignores clean now false name l h = refl
on_event_ignores clean now true name l (inl h) = absurd (cc)
on_event_ignores clean now true name l (inr h) = rw h

not_past : (later d : ℕ) (m : Option ℕ) → m ≡ some d → NotPast later m → later ≤ d
not_past later d none e h = absurd (cc)
not_past later d (some d') e h = let same : d' ≡ d = cc in omega (arith, same)

wait-IsTimely :
    (log : List Collected) (now later : ℕ) (l : Loop)
    → now ≤ later
    → NotPast later l.max_timer
    → IsTimely log now l
    → IsTimely log later l
wait-IsTimely log now later l h past v = record {
  armed =
      λ d e. let (low, high) = v.armed d e in (not_past later d l.max_timer e past, omega arith);
  handled = v.handled;
  ended = v.ended;
}

close-IsTimely :
    (log : List Collected) (now : ℕ) (l : Loop)
    → IsTimely log now l
    → IsTimely log now (record l { ending = closed })
close-IsTimely log now l v = record { armed = v.armed; handled = v.handled; ended = inr (inl refl) }

Run-IsTimely :
    {clean : Bytes → Bytes} {log : List Collected} {now : ℕ} {l : Loop}
    → Run clean log now l
    → IsTimely log now l
Run-IsTimely (begin now) = record { armed = λ d e. absurd (cc); handled = tt; ended = inl refl }
Run-IsTimely (wait later r on h quiet_h max_h) = wait-IsTimely _ _ later _ h max_h (Run-IsTimely r)
Run-IsTimely (collect {log = log} {now = now} {l = l} name r on h) =
    rw (on_event_collects _ now name l h) (collected-IsTimely now _ l log on (Run-IsTimely r))
Run-IsTimely (ignore {now = now} {l = l} is_create name r on h) =
    rw (on_event_ignores _ now is_create name l h) (Run-IsTimely r)
Run-IsTimely (error r on) = Run-IsTimely r
Run-IsTimely (quiet {log = log} {now = now} {l = l} r on e) =
    flush-IsTimely log now l (flush now l).ending (Run-IsTimely r)
Run-IsTimely (full {log = log} {now = now} {l = l} r on e) =
    flush-IsTimely log now l (flush now l).ending (Run-IsTimely r)
Run-IsTimely (cancel {log = log} {now = now} {l = l} r on) =
    flush-IsTimely log now l cancelled (Run-IsTimely r)
Run-IsTimely (close {log = log} {now = now} {l = l} r on) =
    close-IsTimely log now l (Run-IsTimely r)

-- passed on in time, or in the buffer since two seconds at most, of a loop that goes on or that
-- dropped it
abbrev pub IsPrompt : ℕ → Loop → Collected → Type 0
IsPrompt now l e =
    (is_served e l ≡ true)
    ⊎ ((waiting e.path l ≡ true)
        × (now ≤ e.at + debounce_max)
        × ((l.ending ≡ running) ⊎ (l.ending ≡ closed)))

no_waiting : (path : Bytes) (l : Loop) → l.pending ≡ [] → waiting path l ≡ true → ⊥
no_waiting path l e h = ground (arith, rw e at h, lookup-nil {V = Unit {0}} path)

prompt :
    {log : List Collected} (now : ℕ) (l : Loop)
    → IsTimely log now l
    → (e : Collected) → IsHandled l e
    → IsPrompt now l e
prompt now l v e (known, inl h) = inl h
prompt now l v e (known, inr (h, (d, due, soon))) =
    let early : now ≤ e.at + debounce_max = omega (arith, (v.armed d due).0, soon) in
    elim v.ended [
      | inl on ↦ inr (h, early, inl on)
      | inr (inl dropped) ↦ inr (h, early, inr dropped)
      | inr (inr empty) ↦ absurd (no_waiting e.path l empty h)
    ]

-- In every run whose timers fire on time, for each event that was collected, a repeated one too,
-- tryRegister was called behind it for its path and no more than two seconds after it; or the event
-- came no more than two seconds ago and is in the buffer, and the loop goes on, or returned because
-- fsnotify closed a channel, which drops the buffer. So none is lost when the context is done first.
pub Run-IsPrompt :
    (clean : Bytes → Bytes) (log : List Collected) (now : ℕ) (l : Loop)
    → Run clean log now l
    → All (IsPrompt now l) log
Run-IsPrompt clean log now l r =
    let v = Run-IsTimely r in All-mono (IsHandled l) (IsPrompt now l) log (prompt now l v) v.handled
