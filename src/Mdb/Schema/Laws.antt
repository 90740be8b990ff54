-- ===== src/Mdb/Schema/Laws.antt =====
-- What the column cache of internal/mdb/schema.go knows, and that it only learns.
use mdbapi.Base.{
  ◌≡◌, refl, ap, ◌∙◌, Bool, true, false, Option, none, some, List, map, arith, is_some,
  Option-cases, inl, inr,
}
use mdbapi.Base.Assoc.{lookup, lookup-insert}
use mdbapi.Strings.{Bytes, str_eq_iff, bytes_eq}
use mdbapi.Mdb.Errors.{Result, ok, err, wrapping, describe_table, describe_table_types}
use mdbapi.Mdb.Exec.{continue, in_context, lift, pure, ◌>>=◌}
use mdbapi.Mdb.Types.{ColumnType}
use mdbapi.Mdb.Schema.{
  Rows, Db, Session, ColumnMeta, ColumnCache, column_meta, query_context, describe, remember,
  columns_from, columns, find_column, known_or_err, validate_column,
}

abbrev pub knows_in : Option (List ColumnMeta) → Bytes → Bool
knows_in none name = false
knows_in (some cols) name = is_some (find_column name cols)

-- the cache has the schema of the table, and the schema has the column
abbrev pub knows : Session → Bytes → Bytes → Bool
knows s table name = knows_in (lookup table s.columns.cache) name

-- `s'` knows every column that `s` knows, from the same database.
pub record Extends (s s' : Session) : Type 0 where
  pub same_db : s'.columns.db ≡ s.columns.db
  pub at : (table name : Bytes) → knows s table name ≡ true → knows s' table name ≡ true

pub Extends-refl : (s : Session) → Extends s s
Extends-refl s = record { same_db = refl; at = λ t n h. h }

pub Extends-trans : {s s' s'' : Session} → Extends s s' → Extends s' s'' → Extends s s''
Extends-trans a b = record { same_db = b.same_db ∙ a.same_db; at = λ t n h. b.at t n (a.at t n h) }

types_cache :
    (r : Result Rows) (table : Bytes) (s : Session)
    → (continue
        (wrapping (describe_table table) r)
        (λ rows. in_context (describe_table_types table) (lift rows.column_types) >>= λ types.
          pure (map column_meta types))
        s).1
      ≡ s
types_cache (err e) table s = refl
types_cache (ok rows) table s = after rows.column_types
  where
    after :
        (r : Result (List ColumnType))
        → (continue
            (wrapping (describe_table_types table) r)
            (λ types. pure (map column_meta types))
            s).1
          ≡ s
    after (ok types) = refl
    after (err e) = refl

-- describing a table leaves the cache alone
describe_cache :
    (db : Db) (table : Bytes) (s : Session) → (describe db table s).1.columns ≡ s.columns
unfolding describe query_context
describe_cache db table s = ap (λ (z : Session). z.columns) (types_cache _ table _)

-- the cache has just these columns for the table
abbrev Holds : Bytes → List ColumnMeta → Session → Type 0
Holds table cols s = lookup table s.columns.cache ≡ some cols

remember_laws :
    (r : Result (List ColumnMeta)) (table : Bytes) (s s' : Session)
    → s'.columns ≡ s.columns
    → lookup table s.columns.cache ≡ none
    → Extends s (continue r (remember table) s').1
      × ((cols : List ColumnMeta)
          → (continue r (remember table) s').0 ≡ ok cols
          → Holds table cols (continue r (remember table) s').1)
remember_laws (ok cols) table s s' same miss = (
  record {
    same_db = ap (λ (c : ColumnCache). c.db) same;
    at = λ t n h. ground (
      arith,
      lookup-insert table t cols s'.columns.cache,
      str_eq_iff table t,
      ap (λ (c : ColumnCache). lookup t c.cache) same,
    );
  },
  λ cols' e.
      ground (arith, lookup-insert table table cols s'.columns.cache, str_eq_iff table table),
)
remember_laws (err e) table s s' same miss = (
  record { same_db = ap (λ (c : ColumnCache). c.db) same; at = λ t n h. rw same h },
  λ cols e. cc,
)

pub columns_laws :
    (table : Bytes) (s : Session)
    → Extends s (columns table s).1
      × ((cols : List ColumnMeta)
          → (columns table s).0 ≡ ok cols
          → Holds table cols (columns table s).1)
unfolding columns columns_from
columns_laws table s = elim (Option-cases (lookup table s.columns.cache)) [
  | inl miss ↦
      rw (miss, columns_from) (remember_laws _ table s _ (describe_cache s.columns.db table s) miss)
  | inr (cols, hit) ↦ rw (hit, columns_from) (Extends-refl s, λ cols' e. cc)
]

columns_hit :
    (table : Bytes) (s : Session) (cols : List ColumnMeta)
    → lookup table s.columns.cache ≡ some cols
    → columns table s ≡ (ok cols, s)
unfolding columns columns_from
columns_hit table s cols hit = rw (hit, columns_from)

-- A schema is fetched once: when `Columns` has returned it, the next call returns the same and
-- sends no statement.
pub columns_once :
    (table : Bytes) (s : Session) (cols : List ColumnMeta)
    → (columns table s).0 ≡ ok cols
    → columns table (columns table s).1 ≡ (ok cols, (columns table s).1)
columns_once table s cols h = columns_hit table _ cols ((columns_laws table s).1 cols h)

-- with the schema cached, a column is judged by it and nothing changes
pub validate_column_cached :
    (table name : Bytes) (s : Session) (cols : List ColumnMeta)
    → lookup table s.columns.cache ≡ some cols
    → validate_column table name s ≡ (known_or_err table name (find_column name cols), s)
unfolding validate_column
validate_column_cached table name s cols hit = rw (columns_hit table s cols hit)

judged :
    (r : Result (List ColumnMeta)) (table name : Bytes) (s : Session)
    → ((cols : List ColumnMeta) → r ≡ ok cols → lookup table s.columns.cache ≡ some cols)
    → ((continue r (λ cols. lift (known_or_err table name (find_column name cols))) s).1 ≡ s)
      × ((continue r (λ cols. lift (known_or_err table name (find_column name cols))) s).0 ≡ ok tt
          → knows s table name ≡ true)
judged (err e) table name s h = (refl, λ bad. cc)
judged (ok cols) table name s h =
    (refl, λ good. rw (h cols refl) (found (find_column name cols) good))
  where
    found : (o : Option ColumnMeta) → known_or_err table name o ≡ ok tt → is_some o ≡ true
    found none bad = cc
    found (some c) good = refl

-- A column that is accepted is in the cached schema of its table, and nothing that was known is
-- forgotten.
pub validate_column_laws :
    (table name : Bytes) (s : Session)
    → Extends s (validate_column table name s).1
      × ((validate_column table name s).0 ≡ ok tt
          → knows (validate_column table name s).1 table name ≡ true)
unfolding validate_column
validate_column_laws table name s =
    let (grows, holds) = columns_laws table s in
    let (stays, known) = judged (columns table s).0 table name (columns table s).1 holds in
    rw stays (grows, known)
