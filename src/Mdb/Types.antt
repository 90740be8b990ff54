-- ===== src/Mdb/Types.antt =====
-- internal/mdb/types.go: from the values of the ODBC driver to JSON values.
pub mod Encoding
pub mod Base64
pub mod Hyperlinks
pub mod Normal
mod Tests
use mdbapi.Base.{
  ℕ, zero, suc, ◌+◌, Bool, true, false, not, ◌&&◌, ◌||◌, Option, none, some, List, [], ◌∷◌, ◌++◌,
  map, ◌==◌, if◌then◌else◌, is_nil, any,
}
use mdbapi.Base.Int.{ℤ, pos, negsuc}
use mdbapi.Strings.{
  Bytes, codes, running_strings, str_eq, has_suffix, split_cuts, to_lower, to_upper,
}
use Encoding.{base64, utf8_valid, running_encoding}
use Encoding.{Time, is_zero, rfc3339}

-- A Go float: not a number, an infinity with its sign, or sign, mantissa and binary exponent. The
-- conversion of a float32 to float64 is exact, so it keeps this value.
pub data Float : Type 0 where
  nan : Float
  infinite : Bool → Float
  finite : Bool → ℕ → ℤ → Float

-- what a scan of one column can leave in an interface{}
pub data Value : Type 0 where
  nil : Value
  bool : Bool → Value
  int16 int32 int64 : ℤ → Value
  float32 float64 : Float → Value
  str : Bytes → Value
  bytes : Bytes → Value
  time : Time → Value
  -- any other type, by its %v print
  other : Bytes → Value

-- what encoding/json is given
pub data Cell : Type 0 where
  nil : Cell
  bool : Bool → Cell
  int64 : ℤ → Cell
  float64 : Float → Cell
  str : Bytes → Cell

-- *sql.ColumnType, by the methods that the package calls
pub record ColumnType : Type 0 where
  pub name : Bytes
  pub database_type_name : Bytes
  pub nullable : Bool

abbrev pub text_type_names : List Bytes
text_type_names =
    codes "VARCHAR"
    ∷ codes "LONGVARCHAR"
    ∷ codes "WVARCHAR"
    ∷ codes "WLONGVARCHAR"
    ∷ codes "CHAR"
    ∷ codes "WCHAR"
    ∷ codes "NVARCHAR"
    ∷ codes "NCHAR"
    ∷ codes "TEXT"
    ∷ codes "NTEXT"
    ∷ []

unfoldable pub is_text_type_name : Bytes → Bool
is_text_type_name name = any (str_eq (to_upper name)) text_type_names

unfoldable pub is_text_column : ColumnType → Bool
is_text_column col = is_text_type_name col.database_type_name

unfoldable pub is_hyperlink_column : ColumnType → Bool
is_hyperlink_column col =
    let lower = to_lower col.name in
    has_suffix lower (codes "_link")
    || has_suffix lower (codes "_url")
    || has_suffix lower (codes "_hyperlink")

-- the switch on the number of parts; SplitN never returns none
unfoldable pub pick_address : Bytes → List Bytes → Bytes
pick_address s [] = s
pick_address s (p ∷ []) = s
pick_address s (p ∷ q ∷ ps) = if not (is_nil q) then q else p

unfoldable pub strip_hyperlink_meta : Bytes → Bytes
unfolding pick_address
strip_hyperlink_meta s = pick_address s (split_cuts s b'#' 2)

-- col != nil && f(col)
abbrev pub column_is : (ColumnType → Bool) → Option ColumnType → Bool
column_is f none = false
column_is f (some col) = f col

abbrev pub is_zero_int : ℤ → Bool
is_zero_int (pos n) = n == 0
is_zero_int (negsuc n) = false

unfoldable pub normalize_bytes : Option ColumnType → Bytes → Cell
normalize_bytes col v =
    if is_nil v
    then Cell.nil
    else if column_is is_text_column col
    then Cell.str v
    else if utf8_valid v
    then Cell.str v
    else Cell.str (base64 v)

unfoldable pub normalize_value : Option ColumnType → Value → Cell
unfolding normalize_bytes
normalize_value col Value.nil = Cell.nil
normalize_value col (Value.bool v) = Cell.bool v
normalize_value col (Value.int16 v) = Cell.bool (not (is_zero_int v))
normalize_value col (Value.int32 v) = Cell.int64 v
normalize_value col (Value.int64 v) = Cell.int64 v
normalize_value col (Value.float32 v) = Cell.float64 v
normalize_value col (Value.float64 v) = Cell.float64 v
normalize_value col (Value.str v) =
    if column_is is_hyperlink_column col then Cell.str (strip_hyperlink_meta v) else Cell.str v
normalize_value col (Value.bytes v) = normalize_bytes col v
normalize_value col (Value.time v) = if is_zero v then Cell.nil else Cell.str (rfc3339 v)
normalize_value col (Value.other v) = Cell.str v

-- a run of these functions names this one on its `unfolding` line
unfoldable pub running_types : Unit {0}
unfolding running_strings running_encoding is_text_type_name is_text_column is_hyperlink_column
    strip_hyperlink_meta normalize_value
running_types = tt
