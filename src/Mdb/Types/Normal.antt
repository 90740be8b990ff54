-- ===== src/Mdb/Types/Normal.antt =====
-- What `NormalizeValue` of internal/mdb/types.go makes of the driver's values.
use mdbapi.Base.{
  ◌≡◌, ◌⊎◌, inl, inr, ◌↔◌, true, false, Option, some, [], ◌∷◌, arith, All, Bool-cases,
}
use mdbapi.Strings.{Bytes}
use mdbapi.Mdb.Types.Encoding.{is_zero, utf8_valid, base64}
use mdbapi.Mdb.Types.Base64.{decode64, decode64-base64, IsByte}
use mdbapi.Mdb.Types.{Value, Cell, ColumnType, column_is, is_text_column, normalize_value}

-- the driver's ways to say that there is no value
abbrev pub IsNull : Value → Type 0
IsNull Value.nil = Unit
IsNull (Value.bytes v) = v ≡ []
IsNull (Value.time t) = is_zero t ≡ true
IsNull _ = ⊥

-- A value becomes the JSON null exactly if it is nil, an empty byte slice or the zero time.
pub normalize_value-nil_iff :
    (col : Option ColumnType) (v : Value) → (normalize_value col v ≡ Cell.nil) ↔ IsNull v
unfolding normalize_value
normalize_value-nil_iff col Value.nil = ground arith
normalize_value-nil_iff col v = ground arith

-- No byte of a binary or text value is lost: a non-empty byte slice becomes a string that is the
-- bytes themselves, or, only if they are no valid UTF-8, their base64, which reads back as them.
pub normalize_value-bytes :
    (col : Option ColumnType) (c : _) (s : Bytes)
    → All IsByte (c ∷ s)
    → (normalize_value col (Value.bytes (c ∷ s)) ≡ Cell.str (c ∷ s))
      ⊎ ((t : Bytes) × (normalize_value col (Value.bytes (c ∷ s)) ≡ Cell.str t)
          × (decode64 t ≡ some (c ∷ s))
          × (utf8_valid (c ∷ s) ≡ false))
unfolding normalize_value
normalize_value-bytes col c s h = elim (Bool-cases (column_is is_text_column col)) [
  | inl text ↦ inl (rw text)
  | inr other ↦ elim (Bool-cases (utf8_valid (c ∷ s))) [
    | inl valid ↦ inl (rw (other, valid))
    | inr invalid ↦ inr (base64 (c ∷ s), rw (other, invalid), decode64-base64 (c ∷ s) h, invalid)
  ]
]
