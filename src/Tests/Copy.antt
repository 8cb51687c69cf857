-- ===== src/Tests/Copy.antt =====
-- Runs of the COPY text decoder on concrete inputs, over an Arrow whose arrays are their sizes.
use quackgis.Base.{
  ℤ, fits, ◌<◌, ◌↔◌, ◌⊎◌, pos, ℕ, ◌+◌, ◌≡◌, refl, true, false, Option, none, some, List, [], ◌∷◌,
  ◌++◌, Bytes, codes, length, nat_Eq, ok, err, negsuc, arith,
}
use quackgis.Copy.Errors.{panic}
use quackgis.Copy.Escapes.{
  is_octal, decode_copy_field, decode_loop, decode_step, u8_from_radix, digits_value, digit_value,
}
use quackgis.Copy.Escapes.RoundTrip.{copy_escape, decode_copy_field-copy_escape}
use quackgis.Copy.Escapes.Panics.{decode_copy_field-panics}
use quackgis.Copy.Values.{
  parse_digits, next_parsed, parse_integer, parse_bool, field_text, invalid_value,
}
use quackgis.Copy.Values.Signed.{Writes, parse_integer_lem}
use quackgis.Copy.Rows.{split_off, value, rows_len, rows_new, field_range_new}
use quackgis.Copy.Rows.Tables.{Table, encode}
use quackgis.Copy.Rows.Split.{split_off-encode}
use quackgis.Copy.Arrow.{Arrow, DataType, int32, utf8}
use quackgis.Copy.Columns.{build_batch, copy_array}
use quackgis.Copy.Batches.{bounded_batches}
use quackgis.Copy.Batches.Partition.{IsOutcome, bounded_batches-IsOutcome}
use quackgis.Copy.Decoder.{
  decoder_new, split_delimiter, extend_field, add_row_bytes, finish_field, CopyTextDecoder,
  end_marker, newline, after_end_marker,
}
use quackgis.Copy.Push.{push, push_loop, push_round}
use quackgis.Copy.Push.Bounded.{Fed, fresh, fed, Fed-IsBounded}
use quackgis.Copy.Push.Within.{IsBounded}
use quackgis.Copy.Push.EndMarker.{AtRowStart, push-end_marker}

-- Sizes: one for each value, and the bytes of texts.
abbrev text_size : List (Option Bytes) → ℕ
text_size [] = 0
text_size (none ∷ values) = 1 + text_size values
text_size (some bytes ∷ values) = 1 + length bytes + text_size values

abbrev total : List ℕ → ℕ
total [] = 0
total (n ∷ ns) = n + total ns

abbrev sizes : Arrow
sizes = record {
  Metadata = Unit {0};
  Float = ℕ;
  ArrayRef = ℕ;
  RecordBatch = ℕ;
  classify_spatial_field = λ type meta. false;
  parse_float = λ type bytes. none;
  parse_rust_decimal = λ bytes. none;
  parse_naive_date = λ bytes. none;
  parse_naive_timestamp = λ bytes. none;
  booleans = length;
  integers = λ type values. length values;
  floats = λ type values. length values;
  decimals = λ precision scale values. ok (length values);
  byte_strings = λ type values. text_size values;
  try_new = λ schema arrays. ok (total arrays);
  get_array_memory_size = λ batch. batch;
}

abbrev two_columns : List (DataType × Unit {0})
two_columns = (int32, tt) ∷ (utf8, tt) ∷ []

abbrev three_rows : Table
three_rows =
    (some (codes "1") ∷ some (codes "ab") ∷ [])
    ∷ (none ∷ some (codes "c") ∷ [])
    ∷ (some (codes "-7") ∷ none ∷ [])
    ∷ []

abbrev first_row : Table
first_row = (some (codes "1") ∷ some (codes "ab") ∷ []) ∷ []

abbrev later_rows : Table
later_rows = (none ∷ some (codes "c") ∷ []) ∷ (some (codes "-7") ∷ none ∷ []) ∷ []

decode_copy_field-copy_escape_example :
    decode_copy_field (copy_escape (9 ∷ 97 ∷ 92 ∷ 10 ∷ [])) true ≡ ok (9 ∷ 97 ∷ 92 ∷ 10 ∷ [])
decode_copy_field-copy_escape_example = decode_copy_field-copy_escape (9 ∷ 97 ∷ 92 ∷ 10 ∷ []) true

-- The hexadecimal escape of the letter A.
decodes_hex : decode_copy_field (92 ∷ 120 ∷ 52 ∷ 49 ∷ []) false ≡ ok (65 ∷ [])
unfolding decode_copy_field decode_loop decode_step u8_from_radix digits_value digit_value
decodes_hex = refl

-- `\400` after a letter.
decode_copy_field-panics_example :
    decode_copy_field (97 ∷ 92 ∷ 52 ∷ 48 ∷ 48 ∷ []) false ≡ err (panic "validated octal")
unfolding is_octal
decode_copy_field-panics_example =
    decode_copy_field-panics (97 ∷ []) [] 52 48 48 refl refl refl refl

parse_integer_lem_example :
    ((z : ℤ)
      → (parse_integer (codes "+42") "Int64" ≡ ok z)
        ↔ (Writes (codes "+42") z × (fits 63 z ≡ true)))
    × ((parse_integer (codes "+42") "Int64" ≡ err (invalid_value "Int64"))
        ⊎ ((z : ℤ) × (parse_integer (codes "+42") "Int64" ≡ ok z)))
parse_integer_lem_example = parse_integer_lem (codes "+42") "Int64"

signed_integers :
    (parse_integer (codes "+42") "Int64" ≡ ok (pos 42))
    × (parse_integer (codes "-9223372036854775808") "Int64" ≡ ok (negsuc 9223372036854775807))
unfolding parse_integer parse_digits next_parsed
signed_integers = (refl, refl)

too_large_integer :
    parse_integer (codes "9223372036854775808") "Int64" ≡ err (invalid_value "Int64")
unfolding parse_integer parse_digits next_parsed
too_large_integer = refl

reads_true : parse_bool (codes "YES") ≡ ok true
unfolding parse_bool
reads_true = refl

split_off-encode_example :
    split_off (encode 2 three_rows) 1 ≡ ok (encode 2 first_row, encode 2 later_rows)
split_off-encode_example = split_off-encode 2 first_row later_rows (refl, tt) (omega arith)

bounded_batches-IsOutcome_example :
    IsOutcome sizes two_columns 7 2 three_rows
      (bounded_batches sizes two_columns 7 3 (encode 2 three_rows))
bounded_batches-IsOutcome_example =
    bounded_batches-IsOutcome sizes two_columns 7 2 3 three_rows (omega arith) (omega arith)
      (refl, (refl, (refl, tt))) (omega arith)

-- The whole table is above the limit of 7, and its halves are within it.
cuts_in_two : bounded_batches sizes two_columns 7 3 (encode 2 three_rows) ≡ ok (4 ∷ 5 ∷ [])
unfolding bounded_batches build_batch copy_array rows_len value decode_copy_field parse_integer
    parse_digits next_parsed field_text split_off
cuts_in_two = refl

abbrev started : CopyTextDecoder sizes
started = record {
  schema = two_columns;
  limits = record { max_rows = 2; max_bytes = 100; max_row_bytes = 20 };
  rows = record { bytes = []; fields = []; row_ends = 0 ∷ []; columns = 2 };
  field_start = 0;
  row_fields = 0;
  row_bytes = 0;
  batch_bytes = 0;
  row_number = 1;
  terminated = false;
}

started-AtRowStart : AtRowStart sizes started
started-AtRowStart = record {
  running = refl;
  no_fields = refl;
  no_text = refl;
  room = omega arith;
  word = omega arith;
}

push-end_marker_example : push sizes started (end_marker ++ newline ∷ []) ≡ err after_end_marker
push-end_marker_example = push-end_marker sizes started [] started-AtRowStart

-- A value, a tab, and the first letter of the next value.
abbrev half_row : CopyTextDecoder sizes
half_row = record started {
  rows = record started.rows { bytes = codes "1a"; fields = record { start = 0; end = 1 } ∷ [] };
  field_start = 1;
  row_fields = 1;
  row_bytes = 3;
}

half_row-Fed : Fed sizes two_columns started.limits half_row
unfolding decoder_new rows_new push push_loop push_round split_delimiter extend_field add_row_bytes
    finish_field field_range_new
half_row-Fed =
    fed {d = started} {batches = []} (codes "1" ++ 9 ∷ codes "a") (fresh {d = started} refl) refl

Fed-IsBounded_example : IsBounded sizes half_row × (length half_row.rows.bytes < 120)
Fed-IsBounded_example = Fed-IsBounded sizes (omega arith) (omega arith) half_row-Fed
