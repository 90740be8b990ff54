-- ===== src/Integration/Rows.antt =====
-- `validateRowsAgainstSchema` of cmd/integration/main.go: rows by their keys, which a map has once.
pub mod Comparing
use mdbapi.Base.{ℕ, Bool, true, false, not, List, [], ◌∷◌, ◌==◌, any, if◌then◌else◌, length}
use mdbapi.Strings.{Bytes, codes, str_eq}
use mdbapi.Mdb.Errors.{Result, ok, err, external}

abbrev pub member : Bytes → List Bytes → Bool
member k = any (str_eq k)

-- expectedSet, a map whose values say nothing
unfoldable pub add_all : List Bytes → List Bytes → List Bytes
add_all [] set = set
add_all (c ∷ cs) set = add_all cs (if member c set then set else c ∷ set)

-- the first key that is not expected
unfoldable pub check_keys : List Bytes → List Bytes → Result (Unit {0})
check_keys set [] = ok tt
check_keys set (k ∷ ks) =
    let rest = check_keys set ks in
    if member k set then rest else err (external (codes "unexpected column"))

unfoldable pub check_row : List Bytes → List Bytes → Result (Unit {0})
check_row set row =
    if length row == length set then check_keys set row else err (external (codes "key count"))

abbrev pub and_then : Result (Unit {0}) → Result (Unit {0}) → Result (Unit {0})
and_then (ok _) r = r
and_then (err e) r = err e

unfoldable pub check_rows : List Bytes → List (List Bytes) → Result (Unit {0})
check_rows set [] = ok tt
check_rows set (row ∷ rows) = and_then (check_row set row) (check_rows set rows)

-- validateRowsAgainstSchema
unfoldable pub validate_rows_against_schema : List (List Bytes) → List Bytes → Result (Unit {0})
validate_rows_against_schema rows [] = err (external (codes "expected schema has zero columns"))
validate_rows_against_schema [] (c ∷ cs) = ok tt
validate_rows_against_schema (row ∷ rows) (c ∷ cs) = check_rows (add_all (c ∷ cs) []) (row ∷ rows)
