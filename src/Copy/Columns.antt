-- ===== src/Copy/Columns.antt =====
-- The Arrow batch of the rows: `build_batch`, `copy_array`, `typed_values` and the parsers that
-- they use for a column's type.
use Prim.Native.String.{String}
use quackgis.Base.{
  ℕ, zero, suc, ◌-◌, ◌/◌, ◌%◌, ◌^◌, Bool, true, false, Option, none, some, List, [], ◌∷◌, ltb, ◌==◌,
  if◌then◌else◌, Bytes, Result, ok, err, reject, map_err, ◌>>=◌, ◌>>◌, ℤ, pos, negsuc, negated,
  times, fits,
}
use quackgis.Copy.Errors.{Failure, text, copy_error, copy_failure}
use quackgis.Copy.Escapes.{decode_copy_field}
use quackgis.Copy.Values.{invalid_value, field_text, parse_bool, parse_hex_into, parse_integer}
use quackgis.Copy.Rows.{CopyRows, rows_len, value}
use quackgis.Copy.Arrow.{
  Arrow, DataType, boolean, int16, int32, int64, float32, float64, date32, timestamp, utf8, binary,
  decimal128, unsupported,
}

-- `0..n`, from a first number on.
abbrev pub range_from : ℕ → ℕ → List ℕ
range_from start zero = []
range_from start (suc n) = start ∷ range_from (suc start) n

-- `iter().map(f).collect::<Result<Vec<_>, _>>()`
abbrev pub collect {ℓ κ} :
    {A : Type ℓ} {B : Type κ} → (A → Result Failure B) → List A → Result Failure (List B)
collect f [] = ok []
collect f (x ∷ xs) = do y ← f x; ys ← collect f xs; ok (y ∷ ys)

-- One value of a column, decoded and then parsed.
unfoldable pub typed_value {ℓ} :
    {T : Type ℓ} → CopyRows → Bool → ℕ → (Bytes → Result Failure T) → ℕ → Result Failure (Option T)
typed_value rows preserve_single_hex column parse row = do
  raw ← value rows row column
  elim raw [
    | none ↦ ok none
    | some bytes ↦ do
      decoded ← decode_copy_field bytes preserve_single_hex
      parsed ← parse decoded
      ok (some parsed)
  ]

unfoldable pub typed_values {ℓ} :
    {T : Type ℓ}
    → CopyRows
    → Bool
    → ℕ
    → (Bytes → Result Failure T)
    → Result Failure (List (Option T))
unfolding typed_value
typed_values rows preserve_single_hex column parse =
    collect (typed_value rows preserve_single_hex column parse) (range_from 0 (rows_len rows))

-- `i16::try_from` and `i32::try_from`, by the bits below the sign.
unfoldable pub parse_narrow : ℕ → String → Bytes → Result Failure ℤ
parse_narrow width label bytes = do
  parsed ← parse_integer bytes label
  if fits width parsed then ok parsed else err (invalid_value label)

abbrev pub magnitude : ℤ → ℕ
magnitude (pos n) = n
magnitude (negsuc n) = suc n

-- The integer of a sign and a magnitude: how `/` on `i128` treats its left side.
abbrev pub with_sign : ℤ → ℕ → ℤ
with_sign (pos _) n = pos n
with_sign (negsuc _) n = negated n

-- `number.to_string().len()`, on fuel: one digit less with each division.
unfoldable pub decimal_digits : ℕ → ℕ → ℕ
decimal_digits zero n = 1
decimal_digits (suc fuel) n =
    let rest = decimal_digits fuel (n / 10) in if ltb n 10 then 1 else suc rest

-- `10_i128.checked_pow(n)`
abbrev pub checked_pow : ℕ → Option ℕ
checked_pow n = if ltb (10 ^ n) (2 ^ 127) then some (10 ^ n) else none

abbrev pub out_of_range : String → Failure
out_of_range message = copy_failure "22003" message

-- The mantissa at the target scale.
unfoldable pub rescale : ℤ → ℕ → ℕ → Result Failure ℤ
rescale mantissa source_scale target_scale =
    if ltb source_scale target_scale
    then elim (checked_pow (target_scale - source_scale)) [
      | none ↦ err (out_of_range "COPY Decimal128 scale overflows")
      | some factor ↦
          if fits 127 (times mantissa factor)
          then ok (times mantissa factor)
          else err (out_of_range "COPY Decimal128 value overflows")
    ]
    else if ltb target_scale source_scale
    then elim (checked_pow (source_scale - target_scale)) [
      | none ↦ err (out_of_range "COPY Decimal128 scale overflows")
      | some divisor ↦
          if magnitude mantissa % divisor == 0
          then ok (with_sign mantissa (magnitude mantissa / divisor))
          else err (out_of_range "COPY Decimal128 value exceeds the target scale")
    ]
    else ok mantissa

abbrev pub target_scale_of : ℤ → Result Failure ℕ
target_scale_of (pos n) = ok n
target_scale_of (negsuc n) =
    err (copy_failure "0A000" "negative Decimal128 COPY scale is unsupported")

-- `option.ok_or_else(…)`
abbrev pub ok_or {ℓ} : {A : Type ℓ} → Option A → Failure → Result Failure A
ok_or none failure = err failure
ok_or (some a) failure = ok a

module _ (arrow : Arrow) where
  unfoldable pub parse_decimal : ℕ → ℤ → Bytes → Result Failure ℤ
  unfolding rescale
  parse_decimal precision scale bytes = do
    characters ← field_text bytes
    decimal ←
        ok_or (arrow.parse_rust_decimal characters)
          (copy_failure "22P02" "invalid COPY Decimal128 value")
    target_scale ← target_scale_of scale
    mantissa ← rescale decimal.0 decimal.1 target_scale
    reject (ltb precision (decimal_digits 39 (magnitude mantissa)))
        (out_of_range "COPY Decimal128 value exceeds the target precision")
    ok mantissa

  unfoldable pub parse_float : DataType → String → Bytes → Result Failure (arrow.Float)
  parse_float type label bytes = do
    characters ← field_text bytes
    ok_or (arrow.parse_float type characters) (invalid_value label)

  unfoldable pub parse_date : Bytes → Result Failure ℤ
  parse_date bytes = do
    characters ← field_text bytes
    days ←
        ok_or (arrow.parse_naive_date characters) (copy_failure "22007" "invalid COPY Date32 value")
    if fits 31 days then ok days else err (copy_failure "22008" "COPY Date32 value is out of range")

  unfoldable pub parse_timestamp : Bytes → Result Failure ℤ
  parse_timestamp bytes = do
    characters ← field_text bytes
    ok_or (arrow.parse_naive_timestamp characters)
        (copy_failure "22007" "invalid COPY Timestamp value")

  unfoldable pub copy_array :
      DataType → arrow.Metadata → CopyRows → ℕ → Result Failure (arrow.ArrayRef)
  unfolding typed_values parse_narrow parse_decimal parse_float parse_date parse_timestamp
  copy_array boolean meta rows column = do
    values ← typed_values rows false column parse_bool
    ok (arrow.booleans values)
  copy_array int16 meta rows column = do
    values ← typed_values rows false column (parse_narrow 15 "Int16")
    ok (arrow.integers int16 values)
  copy_array int32 meta rows column = do
    values ← typed_values rows false column (parse_narrow 31 "Int32")
    ok (arrow.integers int32 values)
  copy_array int64 meta rows column = do
    values ← typed_values rows false column (λ bytes. parse_integer bytes "Int64")
    ok (arrow.integers int64 values)
  copy_array float32 meta rows column = do
    values ← typed_values rows false column (parse_float float32 "Float32")
    ok (arrow.floats float32 values)
  copy_array float64 meta rows column = do
    values ← typed_values rows false column (parse_float float64 "Float64")
    ok (arrow.floats float64 values)
  copy_array (decimal128 precision scale) meta rows column = do
    values ← typed_values rows false column (parse_decimal precision scale)
    map_err (λ message. copy_failure "22003" message) (arrow.decimals precision scale values)
  copy_array date32 meta rows column = do
    values ← typed_values rows false column parse_date
    ok (arrow.integers date32 values)
  copy_array timestamp meta rows column = do
    values ← typed_values rows false column parse_timestamp
    ok (arrow.integers timestamp values)
  copy_array utf8 meta rows column = do
    values ← typed_values rows false column field_text
    ok (arrow.byte_strings utf8 values)
  copy_array binary meta rows column = do
    let allow_postgis_hex = arrow.classify_spatial_field binary meta
    values ← typed_values rows true column (λ bytes. parse_hex_into bytes allow_postgis_hex)
    ok (arrow.byte_strings binary values)
  copy_array (unsupported name) meta rows column =
      err (copy_error "0A000" (text "unsupported DuckDB COPY Arrow type " ∷ text name ∷ []))

  -- The columns from a number on.
  abbrev copy_arrays :
      CopyRows → ℕ → List (DataType × arrow.Metadata) → Result Failure (List (arrow.ArrayRef))
  copy_arrays rows column [] = ok []
  copy_arrays rows column (field ∷ fields) = do
    array ← copy_array field.0 field.1 rows column
    arrays ← copy_arrays rows (suc column) fields
    ok (array ∷ arrays)

  unfoldable pub build_batch :
      List (DataType × arrow.Metadata) → CopyRows → Result Failure (arrow.RecordBatch)
  build_batch schema rows = do
    arrays ← copy_arrays rows 0 schema
    map_err (λ message. copy_error "22000" (text "building COPY Arrow batch: " ∷ text message ∷ []))
        (arrow.try_new schema arrays)
