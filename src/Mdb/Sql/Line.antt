-- ===== src/Mdb/Sql/Line.antt =====
-- What `stripSQLComments` of internal/mdb/query.go does to a line.
use mdbapi.Base.{ℕ, ◌≡◌, none, some, take}
use mdbapi.Strings.{Bytes, index}
use mdbapi.Mdb.Sql.{line_mark, strip_line}

pub strip_line-none : (l : Bytes) → index l line_mark ≡ none → strip_line l ≡ l
unfolding strip_line
strip_line-none l e = rw (e, strip_line)

pub strip_line-some : (l : Bytes) (i : ℕ) → index l line_mark ≡ some i → strip_line l ≡ take i l
unfolding strip_line
strip_line-some l i e = rw (e, strip_line)
