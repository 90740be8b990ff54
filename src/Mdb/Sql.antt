-- ===== src/Mdb/Sql.antt =====
-- The text checks of internal/mdb/query.go: comments, the read-only test and the TOP clause.
pub mod Comments
pub mod Line
pub mod TopN
pub mod Keyword
pub mod Refused
mod Tests
use mdbapi.Base.{
  ℕ, zero, suc, ◌+◌, Bool, true, false, ◌||◌, Option, none, some, List, ◌∷◌, ◌++◌, map,
  if◌then◌else◌, ◌>>=◌, take, drop, length,
}
use mdbapi.Strings.{
  Bytes, codes, running_strings, index, contains, has_prefix, split, join, trim_space, to_upper,
}
use mdbapi.Base.Int.{ℤ}
use mdbapi.Strings.Decimal.{itoa_ℤ}
use mdbapi.Mdb.Errors.{Result, ok, err, write_not_allowed}

abbrev pub block_open : Bytes
block_open = codes "/*"

abbrev pub block_close : Bytes
block_close = codes "*/"

abbrev pub line_mark : Bytes
line_mark = codes "--"

-- One round of the loop that removes block comments; `none` is one of its two breaks.
unfoldable pub strip_block : Bytes → Option Bytes
strip_block s = do
  start ← index s block_open
  stop ← index (drop start s) block_close
  some (take start s ++ b' ' ∷ drop (start + stop + 2) s)

-- the loop, on fuel
unfoldable pub strip_blocks : ℕ → Bytes → Bytes
strip_blocks zero s = s
strip_blocks (suc f) s = elim (strip_block s) [ none ↦ s | some s' ↦ strip_blocks f s' ]

-- the text of a line before its comment
unfoldable pub strip_line : Bytes → Bytes
strip_line line = elim (index line line_mark) [ none ↦ line | some i ↦ take i line ]

-- each round of the block loop makes the text shorter, so its length is fuel enough
unfoldable pub strip_sql_comments : Bytes → Bytes
strip_sql_comments s =
    trim_space (join (map strip_line (split (strip_blocks (length s) s) b'\n')) (codes " "))

unfoldable pub validate_read_only_sql : Bytes → Result (Unit {0})
validate_read_only_sql query =
    let upper = to_upper (strip_sql_comments (trim_space query)) in
    if has_prefix upper (codes "SELECT") || has_prefix upper (codes "WITH")
    then ok tt
    else err write_not_allowed

-- the cap is written behind the first six bytes of the query, as it was given
unfoldable pub enforce_top_n : Bytes → ℤ → Bytes
enforce_top_n query n =
    let upper = to_upper (trim_space query) in
    if contains upper (codes " TOP ") || has_prefix upper (codes "SELECT TOP")
    then query
    else if has_prefix upper (codes "SELECT")
    then codes "SELECT TOP " ++ (itoa_ℤ n ++ drop 6 query)
    else query

-- a run of these functions names this one on its `unfolding` line
unfoldable pub running_sql : Unit {0}
unfolding running_strings itoa_ℤ strip_block strip_blocks strip_line strip_sql_comments
    validate_read_only_sql enforce_top_n
running_sql = tt
