-- ===== src/Mdb/Sql/Refused.antt =====
-- Statements that the read-only test of internal/mdb/query.go refuses.
use mdbapi.Base.{ℕ, ◌≡◌, true, false, ltb, ◌||◌, [], ◌∷◌, ◌==◌, length, arith}
use mdbapi.Strings.{Bytes, codes, has_prefix, trim_end, is_space, to_upper, upper_byte}
use mdbapi.Strings.Trim.{trim_space-cons, to_upper-cons}
use mdbapi.Mdb.Errors.{err, write_not_allowed}
use mdbapi.Mdb.Sql.{strip_sql_comments, validate_read_only_sql}
use mdbapi.Mdb.Sql.Keyword.{cleaned_keeps}

-- a byte of ASCII that begins neither blanks nor a comment
pub record IsInitial (c : ℕ) : Type 0 where
  pub ascii : ltb c 128 ≡ true
  pub visible : is_space c ≡ false
  pub no_block : (c == b'/') ≡ false
  pub no_line : (c == b'-') ≡ false

other_initial :
    (c : ℕ) (u : Bytes)
    → ltb c 128 ≡ true
    → (upper_byte c == b'S') ≡ false
    → (upper_byte c == b'W') ≡ false
    → (has_prefix (to_upper (c ∷ u)) (codes "SELECT")
        || has_prefix (to_upper (c ∷ u)) (codes "WITH"))
      ≡ false
unfolding has_prefix
other_initial c u ascii no_s no_w = rw (to_upper-cons c u ascii, no_s, no_w)

-- A statement whose first byte is of ASCII and, in either case, not that of SELECT or WITH, and
-- which begins neither with a blank nor with a comment, is refused, whatever follows: the removal of comments
-- cannot bring another keyword to the front.
pub validate_read_only_sql-refused :
    (c : ℕ) (t : Bytes)
    → IsInitial c
    → (upper_byte c == b'S') ≡ false
    → (upper_byte c == b'W') ≡ false
    → validate_read_only_sql (c ∷ t) ≡ err write_not_allowed
unfolding validate_read_only_sql strip_sql_comments
validate_read_only_sql-refused c t i no_s no_w =
    let s = trim_end t in
    let newline : (c == b'\n') ≡ false = ground (arith, i.visible) in
    let (u, e) =
      cleaned_keeps (c ∷ []) (ground (arith, i.no_block)) (ground (arith, i.no_line))
        (ground (arith, newline)) (length (c ∷ s)) s in
    rw (
      trim_space-cons c t i.visible i.ascii,
      e,
      trim_space-cons c u i.visible i.ascii,
      other_initial c (trim_end u) i.ascii no_s no_w,
    )
