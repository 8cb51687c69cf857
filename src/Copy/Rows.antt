-- ===== src/Copy/Rows.antt =====
-- The rows of a batch before they are typed: `FieldRange` and `CopyRows`. A value is a range of the
-- bytes of all the rows; `row_ends` has the offset where each row ends, after a first 0.
pub mod Split
pub mod Tables
use Prim.Native.String.{String}
use quackgis.Base.{
  ℕ, ◌+◌, ◌-◌, ◌*◌, ◌%◌, ◌^◌, Bool, true, false, ◌&&◌, ◌||◌, Option, none, some, List, [], ◌∷◌,
  ◌++◌, map, ltb, leb, ◌==◌, if◌then◌else◌, Bytes, length, take, drop, get_elem?, Result, ok, err,
  ◌>>=◌,
}
use quackgis.Copy.Errors.{Failure, panic}

-- u32::MAX
abbrev pub u32_max : ℕ
u32_max = 2 ^ 32 - 1

pub record FieldRange : Type 0 where
  pub start : ℕ
  pub end : ℕ

-- FieldRange::NULL
abbrev pub null_range : FieldRange
null_range = record { start = u32_max; end = u32_max }

-- u32::try_from(value).expect(…)
abbrev pub u32_from : String → ℕ → Result Failure ℕ
u32_from message value = if ltb u32_max value then err (panic message) else ok value

abbrev batch_bounded : String
batch_bounded = "COPY batch data is bounded below 4 GiB"

unfoldable pub field_range_new : ℕ → ℕ → Result Failure FieldRange
field_range_new start end = do
  first ← u32_from batch_bounded start
  last ← u32_from batch_bounded end
  ok (record { start = first; end = last })

abbrev pub is_null : FieldRange → Bool
is_null range = range.start == u32_max

pub record CopyRows : Type 0 where
  pub bytes : Bytes
  pub fields : List FieldRange
  pub row_ends : List ℕ
  pub columns : ℕ

unfoldable pub rows_new : ℕ → CopyRows
rows_new columns = record { bytes = []; fields = []; row_ends = 0 ∷ []; columns = columns }

unfoldable pub rows_len : CopyRows → ℕ
rows_len rows = length rows.row_ends - 1

unfoldable pub is_empty : CopyRows → Bool
unfolding rows_len
is_empty rows = rows_len rows == 0

-- `list[index]`
abbrev pub index {ℓ} : {A : Type ℓ} → List A → ℕ → Result Failure A
index xs i = elim (get_elem? xs i) [ none ↦ err (panic "index out of bounds") | some x ↦ ok x ]

-- `&bytes[start..end]`
unfoldable pub slice : Bytes → FieldRange → Result Failure Bytes
slice bytes range =
    if leb range.start range.end && leb range.end (length bytes)
    then ok (take (range.end - range.start) (drop range.start bytes))
    else err (panic "range out of bounds")

unfoldable pub value_of : Bytes → FieldRange → Result Failure (Option Bytes)
unfolding slice
value_of bytes range =
    if is_null range then ok none else do value ← slice bytes range; ok (some value)

unfoldable pub value : CopyRows → ℕ → ℕ → Result Failure (Option Bytes)
unfolding value_of
value rows row column = do
  range ← index rows.fields (row * rows.columns + column)
  value_of rows.bytes range

-- `list.split_off(at)`: what stays and what is taken off.
abbrev pub vec_split_off {ℓ} : {A : Type ℓ} → List A → ℕ → Result Failure (List A × List A)
vec_split_off xs at =
    if leb at (length xs) then ok (take at xs, drop at xs) else err (panic "split out of bounds")

-- `range.start -= offset; range.end -= offset`, on words of 32 bits that wrap.
abbrev pub wrapping_sub : ℕ → ℕ → ℕ → ℕ
wrapping_sub width a b = (a + (2 ^ width - b)) % 2 ^ width

unfoldable pub shift_range : ℕ → FieldRange → FieldRange
shift_range offset range = if is_null range then range else record {
  start = wrapping_sub 32 range.start offset;
  end = wrapping_sub 32 range.end offset;
}

-- `CopyRows::split_off`: the rows before `row`, which stay, and the rows from there on.
unfoldable pub split_off : CopyRows → ℕ → Result Failure (CopyRows × CopyRows)
unfolding shift_range
split_off rows row = do
  byte_offset ← index rows.row_ends row
  bytes ← vec_split_off rows.bytes byte_offset
  fields ← vec_split_off rows.fields (row * rows.columns)
  field_offset ← u32_from "COPY batch offset" byte_offset
  row_ends ← vec_split_off rows.row_ends row
  ok (
    record {
      bytes = bytes.0;
      fields = fields.0;
      row_ends = row_ends.0 ++ byte_offset ∷ [];
      columns = rows.columns;
    },
    record {
      bytes = bytes.1;
      fields = map (shift_range field_offset) fields.1;
      row_ends = map (λ end. wrapping_sub 64 end byte_offset) row_ends.1;
      columns = rows.columns;
    },
  )
