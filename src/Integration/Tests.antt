-- ===== src/Integration/Tests.antt =====
-- Instances of the theorems on quoting and on the comparison of rows.
use mdbapi.Base.{ℕ, suc, ◌+◌, ◌/◌, ltb, none, if◌then◌else◌, ◌≡◌, refl, some, [], ◌∷◌}
use mdbapi.Strings.{codes, str_eq}
use mdbapi.Mdb.Errors.{ok}
use mdbapi.Integration.Waiting.{
  Attempt, pause, wait_from, wait_for_health, IsOutcome, wait_for_health-IsOutcome,
}
use mdbapi.Integration.Quoting.{double_closing, quote_ident}
use mdbapi.Integration.Rows.{
  add_all, check_keys, check_row, check_rows, validate_rows_against_schema,
}

quoted : quote_ident (codes "a]b") ≡ codes "[a]]b]"
unfolding quote_ident double_closing
quoted = refl

other_order :
    validate_rows_against_schema
      ((codes "b" ∷ codes "a" ∷ []) ∷ [])
      (codes "a" ∷ codes "b" ∷ codes "a" ∷ [])
    ≡ ok tt
unfolding validate_rows_against_schema add_all check_keys check_row check_rows str_eq
other_order = refl

-- a server that is up from 300 milliseconds on, and answers at once
abbrev starting : ℕ → Attempt
starting t = record {
  takes = 5;
  answer = ok (record {
    envelope = record { body = []; error = none };
    status = if ltb t 300 then 503 else 200;
  });
}

wait_for_health-IsOutcome_example :
    IsOutcome starting 0 (0 + 1000) (wait_for_health starting (suc (1000 / pause + 1)) 0 1000)
wait_for_health-IsOutcome_example = wait_for_health-IsOutcome starting 0 1000

up_at_410 : wait_for_health starting 7 0 1000 ≡ some (ok tt)
unfolding wait_for_health wait_from
up_at_410 = refl
