-- ===== src/Copy/Decoder.antt =====
-- The incremental decoder: `CopyTextDecoder` and its methods. What an operation that fails leaves of
-- its decoder is not modelled.
use quackgis.Base.{
  ℕ, ◌+◌, Bool, false, not, ◌||◌, Option, none, some, List, [], ◌∷◌, ◌++◌, ltb, leb, ◌==◌,
  if◌then◌else◌, Bytes, list_beq, nat_Eq, length, take, drop, saturating_add, Result, ok, err,
  reject, ◌>>=◌, ◌>>◌,
}
use quackgis.Copy.Errors.{Failure, text, number, panic, copy_error, copy_failure}
use quackgis.Copy.Escapes.{backslash}
use quackgis.Copy.Rows.{
  CopyRows, FieldRange, null_range, field_range_new, rows_new, rows_len, is_empty,
}
use quackgis.Copy.Arrow.{Arrow, DataType}
use quackgis.Copy.Batches.{bounded_batches}

abbrev pub max_batches_per_copy_chunk : ℕ
max_batches_per_copy_chunk = 128

pub record CopyBatchLimits : Type 0 where
  pub max_rows : ℕ
  pub max_bytes : ℕ
  pub max_row_bytes : ℕ

abbrev pub tab : ℕ
tab = b'\t'

abbrev pub newline : ℕ
newline = b'\n'

abbrev pub carriage_return : ℕ
carriage_return = b'\r'

-- br"\N" and br"\."
abbrev pub null_marker : Bytes
null_marker = backslash ∷ b'N' ∷ []

abbrev pub end_marker : Bytes
end_marker = backslash ∷ b'.' ∷ []

abbrev pub after_end_marker : Failure
after_end_marker = copy_failure "22P04" "COPY data follows the end marker"

-- `memchr2(b'\t', b'\n', remaining)`: what is before the first of the two, which it is, and what
-- is after it.
unfoldable pub split_delimiter : Bytes → Option (Bytes × ℕ × Bytes)
split_delimiter [] = none
split_delimiter (b ∷ bs) =
    let rest = split_delimiter bs in
    if b == tab || b == newline
    then some ([], b, bs)
    else elim rest [ none ↦ none | some (before, found, after) ↦ some (b ∷ before, found, after) ]

module _ (arrow : Arrow) where
  pub record CopyTextDecoder : Type 0 where
    pub schema : List (DataType × arrow.Metadata)
    pub limits : CopyBatchLimits
    pub rows : CopyRows
    pub field_start : ℕ
    pub row_fields : ℕ
    pub row_bytes : ℕ
    pub batch_bytes : ℕ
    pub row_number : ℕ
    pub terminated : Bool

  unfoldable pub decoder_new :
      List (DataType × arrow.Metadata) → CopyBatchLimits → Result Failure CopyTextDecoder
  unfolding rows_new
  decoder_new schema limits = do
    reject (limits.max_rows == 0 || limits.max_bytes == 0 || limits.max_row_bytes == 0)
        (copy_failure "22023" "COPY batch limits must be positive")
    ok (record {
      schema = schema;
      limits = limits;
      rows = rows_new (length schema);
      field_start = 0;
      row_fields = 0;
      row_bytes = 0;
      batch_bytes = 0;
      row_number = 1;
      terminated = false;
    })

  unfoldable pub add_row_bytes : CopyTextDecoder → ℕ → Result Failure CopyTextDecoder
  add_row_bytes d count = do
    let row_bytes = saturating_add d.row_bytes count
    reject (ltb d.limits.max_row_bytes row_bytes) (
        copy_error "54000"
          (text "COPY row " ∷ number d.row_number ∷ text " exceeds the configured byte limit" ∷ []))
    ok (record d { row_bytes = row_bytes })

  unfoldable pub extend_field : CopyTextDecoder → Bytes → Result Failure CopyTextDecoder
  unfolding add_row_bytes
  extend_field d bytes = do
    e ← add_row_bytes d (length bytes)
    ok (record e { rows = record e.rows { bytes = e.rows.bytes ++ bytes } })

  -- `self.rows.data[self.field_start..]`
  unfoldable pub current_field : CopyTextDecoder → Result Failure Bytes
  current_field d =
      if leb d.field_start (length d.rows.bytes)
      then ok (drop d.field_start d.rows.bytes)
      else err (panic "range out of bounds")

  -- `self.rows.data.truncate(self.field_start)`
  abbrev pub truncated : CopyTextDecoder → CopyRows
  truncated d = record d.rows { bytes = take d.field_start d.rows.bytes }

  -- The range of the current field, and the rows without the text of a null.
  unfoldable pub field_value : CopyTextDecoder → Bytes → Result Failure (FieldRange × CopyRows)
  field_value d field =
      if list_beq field null_marker
      then ok (null_range, truncated d)
      else do range ← field_range_new d.field_start (length d.rows.bytes); ok (range, d.rows)

  unfoldable pub finish_field : CopyTextDecoder → Result Failure CopyTextDecoder
  unfolding current_field field_value
  finish_field d = do
    reject (leb (length d.schema) d.row_fields) (
        copy_error "22P04"
          (text "COPY row " ∷ number d.row_number ∷ text " has too many columns" ∷ []))
    field ← current_field d
    ended ← field_value d field
    let (range, rows) = ended
    ok (record d {
      rows = record rows { fields = rows.fields ++ range ∷ [] };
      field_start = length rows.bytes;
      row_fields = d.row_fields + 1;
    })

  unfoldable pub finish_row : CopyTextDecoder → Result Failure CopyTextDecoder
  unfolding finish_field
  finish_row d = do
    e ← finish_field d
    reject (not (e.row_fields == length e.schema)) (
        copy_error "22P04" (
          text "COPY row "
          ∷ number e.row_number
          ∷ text " has "
          ∷ number e.row_fields
          ∷ text " columns; expected "
          ∷ number (length e.schema)
          ∷ []))
    ok (record e {
      batch_bytes = saturating_add e.batch_bytes e.row_bytes;
      row_bytes = 0;
      row_number = e.row_number + 1;
      rows = record e.rows { row_ends = e.rows.row_ends ++ length e.rows.bytes ∷ [] };
      field_start = length e.rows.bytes;
      row_fields = 0;
    })

  unfoldable pub should_flush : CopyTextDecoder → Bool
  unfolding rows_len
  should_flush d = leb d.limits.max_rows (rows_len d.rows) || leb d.limits.max_bytes d.batch_bytes

  unfoldable pub flush :
      CopyTextDecoder → Result Failure (CopyTextDecoder × List (arrow.RecordBatch))
  unfolding rows_new is_empty
  flush d = if is_empty d.rows then ok (d, []) else do
    batches ← bounded_batches arrow d.schema d.limits.max_bytes (rows_len d.rows) d.rows
    ok (record d { batch_bytes = 0; field_start = 0; rows = rows_new (length d.schema) }, batches)
