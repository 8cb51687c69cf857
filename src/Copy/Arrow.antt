-- ===== src/Copy/Arrow.antt =====
-- What the COPY decoder uses of other crates: Arrow's arrays and batches, the parsers of floats,
-- decimals, dates and timestamps, and the classification of spatial columns.
use Prim.Native.String.{String}
use quackgis.Base.{ℕ, Bool, Option, List, Bytes, Result, ℤ}

-- `arrow_schema::DataType`, as far as the decoder tells it apart.
pub data DataType : Type 0 where
  boolean int16 int32 int64 float32 float64 date32 timestamp utf8 binary : DataType
  decimal128 : ℕ → ℤ → DataType
  unsupported : String → DataType

pub record Arrow : Type 1 where
  pub Metadata : Type 0
  pub Float : Type 0
  pub ArrayRef : Type 0
  pub RecordBatch : Type 0
  pub classify_spatial_field : DataType → Metadata → Bool
  -- `str::parse` of the two widths, the mantissa and scale of a decimal, and the days and the
  -- microseconds since 1970 of a date and a timestamp.
  pub parse_float : DataType → Bytes → Option Float
  pub parse_rust_decimal : Bytes → Option (ℤ × ℕ)
  pub parse_naive_date : Bytes → Option ℤ
  pub parse_naive_timestamp : Bytes → Option ℤ
  pub booleans : List (Option Bool) → ArrayRef
  pub integers : DataType → List (Option ℤ) → ArrayRef
  pub floats : DataType → List (Option Float) → ArrayRef
  pub decimals : ℕ → ℤ → List (Option ℤ) → Result String ArrayRef
  pub byte_strings : DataType → List (Option Bytes) → ArrayRef
  pub try_new : List (DataType × Metadata) → List ArrayRef → Result String RecordBatch
  pub get_array_memory_size : RecordBatch → ℕ
