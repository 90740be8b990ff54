-- ===== src/Integration/Program/Exiting.antt =====
-- What the exit code of `main` of cmd/integration/main.go says.
use mdbapi.Base.{
  ℕ, Bool, suc, ◌+◌, ◌*◌, ◌/◌, ◌≡◌, ◌⊎◌, ◌∙◌, refl, ap, true, false, Option, none, some, List, [],
  ◌∷◌, is_nil, length, ltb, arith, Bool-cases, inl, inr, if◌then◌else◌,
}
use mdbapi.Base.Assoc.{insert, lookup}
use mdbapi.Strings.{Bytes, bytes_eq}
use mdbapi.Mdb.Errors.{Result, ok, err}
use mdbapi.Mdb.Pool.{DbConfig, new_pool}
use mdbapi.Config.Glob.{FilePath}
use mdbapi.Integration.Aliases.{Used, make_from, make_db_configs, count_up, base_alias}
use mdbapi.Integration.Client.{Runner, fail}
use mdbapi.Integration.Waiting.{
  Tried, pause, is_healthy, wait_for_health, IsOutcome, wait_for_health-IsOutcome,
}
use mdbapi.Integration.Database.{run_checks, exit_code}
use mdbapi.Integration.Database.Counting.{run_checks-exit_code}
use mdbapi.Integration.Program.{
  Outside, all_files, startup_timeout, fatal, finished, checked, when_healthy, serve, found, main,
}

length-make_from :
    (fp : FilePath) (used : Used) (paths : List Bytes)
    → length (make_from fp used paths) ≡ length paths
unfolding make_from
length-make_from fp used [] = refl
length-make_from fp used (p ∷ ps) = ap suc (
    length-make_from fp (insert (base_alias fp p) (count_up (lookup (base_alias fp p) used)) used)
      ps)

-- rounds enough for the wait
abbrev pub enough : ℕ
enough = suc (startup_timeout / pause + 1)

-- every check of these files was made, and none failed
pub record IsClean (out : Outside) (dirs : List Bytes) : Type 0 where
  pub files : List Bytes
  pub searched : all_files out dirs ≡ ok files
  pub some_files : is_nil files ≡ false
  pub listened : out.listens ≡ true
  pub healthy : (t : ℕ) × Tried out.health out.start t × (is_healthy (out.health t).answer ≡ true)
  pub ended : out.serve_fails ≡ false
  pub none_failed :
      (run_checks
        (out.client (new_pool out.odbc (make_db_configs out.paths files)))
        (new_pool out.odbc (make_db_configs out.paths files))
        (make_db_configs out.paths files)).failed
      ≡ 0
  pub counted :
      (run_checks
        (out.client (new_pool out.odbc (make_db_configs out.paths files)))
        (new_pool out.odbc (make_db_configs out.paths files))
        (make_db_configs out.paths files)).total
      ≡ 2 + 4 * length files

finished_zero :
    (out : Outside) (r : Runner)
    → exit_code (finished out r) ≡ 0
    → (out.serve_fails ≡ false) × (exit_code r ≡ 0)
unfolding fail
finished_zero out r h = elim (Bool-cases out.serve_fails) [
  | inl fails ↦ absurd (ground (arith, fails, h))
  | inr ends ↦ (ends, ground (arith, ends, h))
]

some-injective : (m n : ℕ) → some m ≡ some n → m ≡ n
some-injective m n h = cc (h)

fatal-nonzero : ¬ (some fatal ≡ some 0)
fatal-nonzero h = let e = some-injective fatal 0 h in omega (arith, e)

module _ (out : Outside) (dirs files : List Bytes) (searched : all_files out dirs ≡ ok files)
    (some_files : is_nil files ≡ false) (listened : out.listens ≡ true) where
  abbrev db_configs : List DbConfig
  db_configs = make_db_configs out.paths files

  counted :
      exit_code (
          run_checks
            (out.client (new_pool out.odbc db_configs))
            (new_pool out.odbc db_configs)
            db_configs)
        ≡ 0
      → (run_checks
          (out.client (new_pool out.odbc db_configs))
          (new_pool out.odbc db_configs)
          db_configs).total
        ≡ 2 + 4 * length files
  unfolding make_db_configs
  counted h =
      (run_checks-exit_code (out.client (new_pool out.odbc db_configs))
        (new_pool out.odbc db_configs) db_configs h).1
      ∙ ap (λ n. 2 + 4 * n) (length-make_from out.paths [] files)

  healthy-IsClean :
      (o : Option (Result (Unit {0})))
      → IsOutcome out.health out.start (out.start + startup_timeout) o
      → when_healthy out db_configs o ≡ some 0
      → IsClean out dirs
  healthy-IsClean none w h = absurd (w)
  healthy-IsClean (some (err e)) w h = absurd (fatal-nonzero h)
  healthy-IsClean (some (ok u)) (t, tried, soon, good) h =
      let r =
        run_checks (out.client (new_pool out.odbc db_configs)) (new_pool out.odbc db_configs)
          db_configs in
      let (ended, zero_code) =
        finished_zero out r (some-injective (exit_code (finished out r)) 0 h) in
      record {
        files = files;
        searched = searched;
        some_files = some_files;
        listened = listened;
        healthy = (t, tried, good);
        ended = ended;
        none_failed = (run_checks-exit_code _ _ _ zero_code).0;
        counted = counted zero_code;
      }

  serve-IsClean : serve out enough db_configs ≡ some 0 → IsClean out dirs
  unfolding serve
  serve-IsClean h =
      healthy-IsClean (wait_for_health out.health enough out.start startup_timeout)
        (wait_for_health-IsOutcome out.health out.start startup_timeout) (rw listened at h)

-- an answer other than that of a fatal error
past_fatal :
    (b : Bool) (o : Option ℕ) → (if b then some fatal else o) ≡ some 0 → (b ≡ false) × (o ≡ some 0)
past_fatal true o h = absurd (fatal-nonzero h)
past_fatal false o h = (refl, h)

found-IsClean :
    (out : Outside) (dirs : List Bytes) (r : Result (List Bytes))
    → all_files out dirs ≡ r
    → found out enough r ≡ some 0
    → IsClean out dirs
unfolding serve
found-IsClean out dirs (err e) searched h = absurd (fatal-nonzero h)
found-IsClean out dirs (ok files) searched h =
    let (some_files, h') =
      past_fatal (is_nil files) (serve out enough (make_db_configs out.paths files)) h in
    elim (Bool-cases out.listens) [
      | inl listened ↦ serve-IsClean out dirs files searched some_files listened h'
      | inr deaf ↦ absurd (fatal-nonzero (rw deaf at h'))
    ]

main-IsClean :
    (out : Outside) (dirs : List Bytes) → main out enough dirs ≡ some 0 → IsClean out dirs
unfolding main
main-IsClean out dirs h =
    let (some_dirs, h') = past_fatal (is_nil dirs) (found out enough (all_files out dirs)) h in
    found-IsClean out dirs (all_files out dirs) refl h'

abbrev Ends : Option ℕ → Type 0
Ends o = (o ≡ some 1) ⊎ (o ≡ some 0)

exit_code-Ends : (r : Runner) → Ends (some (exit_code r))
exit_code-Ends r = elim (Bool-cases (ltb 0 r.failed)) [
  | inl bad ↦ inl (rw bad)
  | inr good ↦ inr (rw good)
]

fatal-Ends : (b : Bool) (o : Option ℕ) → Ends o → Ends (if b then some fatal else o)
fatal-Ends true o h = inl refl
fatal-Ends false o h = h

when_healthy-Ends :
    (out : Outside) (cfgs : List DbConfig) (o : Option (Result (Unit {0})))
    → IsOutcome out.health out.start (out.start + startup_timeout) o
    → Ends (when_healthy out cfgs o)
when_healthy-Ends out cfgs none w = absurd (w)
when_healthy-Ends out cfgs (some (err e)) w = inl refl
when_healthy-Ends out cfgs (some (ok u)) w =
    exit_code-Ends (checked out cfgs (new_pool out.odbc cfgs))

serve-Ends : (out : Outside) (cfgs : List DbConfig) → Ends (serve out enough cfgs)
unfolding serve
serve-Ends out cfgs = elim (Bool-cases out.listens) [
  | inr deaf ↦ rw deaf (inl refl)
  | inl listened ↦ rw listened (
      when_healthy-Ends out cfgs (wait_for_health out.health enough out.start startup_timeout)
        (wait_for_health-IsOutcome out.health out.start startup_timeout))
]

found-Ends : (out : Outside) (r : Result (List Bytes)) → Ends (found out enough r)
found-Ends out (err e) = inl refl
found-Ends out (ok files) =
    fatal-Ends (is_nil files) (serve out enough (make_db_configs out.paths files))
      (serve-Ends out (make_db_configs out.paths files))

main-Ends : (out : Outside) (dirs : List Bytes) → Ends (main out enough dirs)
unfolding main
main-Ends out dirs =
    fatal-Ends (is_nil dirs) (found out enough (all_files out dirs))
      (found-Ends out (all_files out dirs))

-- With rounds enough for the wait, the program ends. Its exit code is 1, or it is 0 and every
-- directory could be searched and a file was found, the server listened and was found healthy,
-- every check was made and none failed, two and four for each file, and the server ended without
-- an error.
pub main-outcome :
    (out : Outside) (dirs : List Bytes)
    → (main out enough dirs ≡ some 1) ⊎ ((main out enough dirs ≡ some 0) × IsClean out dirs)
main-outcome out dirs = elim (main-Ends out dirs) [
  | inl bad ↦ inl bad
  | inr good ↦ inr (good, main-IsClean out dirs good)
]
