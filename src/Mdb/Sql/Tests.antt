-- ===== src/Mdb/Sql/Tests.antt =====
-- Runs of query.go on the inputs of internal/mdb/query_test.go, and instances of the theorems.
use mdbapi.Base.{◌≡◌, refl, ◌∷◌, ◌++◌}
use mdbapi.Base.Int.{pos}
use mdbapi.Strings.{codes}
use mdbapi.Strings.Decimal.{itoa_ℤ}
use mdbapi.Mdb.Sql.Refused.{validate_read_only_sql-refused}
use mdbapi.Mdb.Sql.Keyword.{validate_read_only_sql-select, validate_read_only_sql-unclosed}
use mdbapi.Mdb.Sql.TopN.{enforce_top_n_blank}
use mdbapi.Mdb.Errors.{ok, err, write_not_allowed}
use mdbapi.Mdb.Sql.{running_sql, strip_sql_comments, validate_read_only_sql, enforce_top_n}

allowed_comment : validate_read_only_sql (codes "-- comment\nSELECT * FROM t") ≡ ok tt
unfolding running_sql
allowed_comment = refl

allowed_block : validate_read_only_sql (codes "/* block */ SELECT 1") ≡ ok tt
unfolding running_sql
allowed_block = refl

denied_disguise :
    validate_read_only_sql (codes "/* SELECT x */ DELETE FROM t") ≡ err write_not_allowed
unfolding running_sql
denied_disguise = refl

denied_line : validate_read_only_sql (codes "-- SELECT\nDELETE FROM t") ≡ err write_not_allowed
unfolding running_sql
denied_line = refl

-- a no-break space, and U+017F, whose upper case is S
allowed_beyond_ascii : validate_read_only_sql (194 ∷ 160 ∷ 197 ∷ 191 ∷ codes "elect 1") ≡ ok tt
unfolding running_sql
allowed_beyond_ascii = refl

strip_two : strip_sql_comments (codes "SELECT 1 /* a */ + /* b */ 2") ≡ codes "SELECT 1   +   2"
unfolding running_sql
strip_two = refl

top_added : enforce_top_n (codes "SELECT * FROM t") (pos 100) ≡ codes "SELECT TOP 100 * FROM t"
unfolding running_sql
top_added = refl

top_kept : enforce_top_n (codes "SELECT TOP 5 * FROM t") (pos 100) ≡ codes "SELECT TOP 5 * FROM t"
unfolding running_sql
top_kept = refl

validate_read_only_sql-unclosed_example :
    validate_read_only_sql (codes "/*/ SELECT" ++ codes " 1 */ DELETE FROM t") ≡ ok tt
validate_read_only_sql-unclosed_example =
    validate_read_only_sql-unclosed (codes " 1 */ DELETE FROM t")

enforce_top_n_blank_example :
    enforce_top_n (b' ' ∷ codes "SELECT" ++ codes " * FROM t") (pos 100)
    ≡ codes "SELECT TOP " ++ (itoa_ℤ (pos 100) ++ b'T' ∷ codes " * FROM t")
unfolding running_sql
enforce_top_n_blank_example = enforce_top_n_blank b' ' (codes " * FROM t") (pos 100) refl refl

validate_read_only_sql-refused_example :
    validate_read_only_sql (b'd' ∷ codes "rop/**/ TABLE t -- SELECT") ≡ err write_not_allowed
validate_read_only_sql-refused_example =
    validate_read_only_sql-refused b'd' (codes "rop/**/ TABLE t -- SELECT")
      (record { ascii = refl; visible = refl; no_block = refl; no_line = refl }) refl refl

validate_read_only_sql-select_example :
    validate_read_only_sql (codes "SELECT" ++ codes " * INTO copy FROM t; DROP TABLE t") ≡ ok tt
validate_read_only_sql-select_example =
    validate_read_only_sql-select (codes " * INTO copy FROM t; DROP TABLE t")
