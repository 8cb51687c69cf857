-- ===== src/Copy/Push/Within.antt =====
-- The steps of a decoder on a field and a row keep its text counted and its counts within their limits
-- (crates/quackgis-server/src/pgwire_server/copy_text.rs).
use quackgis.Base.{
  ℕ, ◌≤◌, ◌<◌, ◌≡◌, false, List, [], ◌∷◌, if-cases, Bytes, length, length-append, length-take,
  u64_mod, ◌+◌, ◌⊎◌, list_beq, nat_Eq, ok, >>=-eq-ok, reject-then, returned, saturating_add, ltb,
  leb, ◌++◌, Result, arith,
}
use quackgis.Copy.Errors.{Failure}
use quackgis.Copy.Rows.{FieldRange, CopyRows, field_range_new, rows_len, rows_new, is_empty}
use quackgis.Copy.Arrow.{Arrow}
use quackgis.Copy.Decoder.{
  CopyTextDecoder, null_marker, add_row_bytes, extend_field, finish_field, current_field,
  field_value, finish_row, flush,
}

adds_small :
    (a b most : ℕ)
    → most + 1 < u64_mod
    → ltb most (saturating_add a b) ≡ false
    → (saturating_add a b ≡ a + b) × (a + b ≤ most)
adds_small a b most room h = ground (arith, room, h)

module _ (arrow : Arrow) where
  -- Between the operations of a decoder: the count of the row that it reads, the finished rows and
  -- the count of their bytes are within the limits, and the text that it holds is counted.
  pub record IsBounded (d : CopyTextDecoder arrow) : Type 0 where
    pub row_within : d.row_bytes ≤ d.limits.max_row_bytes
    pub rows_within : rows_len d.rows < d.limits.max_rows
    pub bytes_within : d.batch_bytes < d.limits.max_bytes
    pub ends_started : 0 < length d.rows.row_ends
    pub held : length d.rows.bytes ≤ d.batch_bytes + d.row_bytes
    pub row_start : d.row_fields ≡ 0 → d.field_start ≤ d.batch_bytes
    pub batch_fits : d.limits.max_bytes < u64_mod
    pub row_fits : d.limits.max_row_bytes + 1 < u64_mod

  pub add_row_bytes-IsBounded :
      {d e : CopyTextDecoder arrow} (count : ℕ)
      → IsBounded d
      → add_row_bytes arrow d count ≡ ok e
      → IsBounded e
  unfolding add_row_bytes
  add_row_bytes-IsBounded count b h = ground arith

  add_row_bytes-adds :
      {d e : CopyTextDecoder arrow} (count : ℕ)
      → IsBounded d
      → add_row_bytes arrow d count ≡ ok e
      → (e ≡ record d { row_bytes = d.row_bytes + count })
        × (d.row_bytes + count ≤ d.limits.max_row_bytes)
  unfolding add_row_bytes
  add_row_bytes-adds {d = d} {e = f} count b h =
      let (within, rest) =
        reject-then (ltb d.limits.max_row_bytes (saturating_add d.row_bytes count)) _ _ h in
      let (e, small) = adds_small d.row_bytes count d.limits.max_row_bytes b.row_fits within in
      let rest' = rw e at rest in (cc rest', small)

  pub extend_field-IsBounded :
      {d e : CopyTextDecoder arrow} (bytes : Bytes)
      → IsBounded d
      → extend_field arrow d bytes ≡ ok e
      → IsBounded e
  unfolding extend_field add_row_bytes rows_len
  extend_field-IsBounded {d = d} bytes b h =
      let (c, counted, rest) = >>=-eq-ok (add_row_bytes arrow d (length bytes)) _ h in
      let i = add_row_bytes-adds (length bytes) b counted in
      returned IsBounded (record c { rows = record c.rows { bytes = c.rows.bytes ++ bytes } }) rest
        (rw i.0 (record {
          row_within = ground (arith, i);
          rows_within = b.rows_within;
          bytes_within = b.bytes_within;
          ends_started = b.ends_started;
          held = omega (arith, b.held, length-append d.rows.bytes bytes);
          row_start = b.row_start;
          batch_fits = b.batch_fits;
          row_fits = b.row_fits;
        }))

  field_value-shrinks :
      (d : CopyTextDecoder arrow) (field : Bytes) {range : FieldRange} {rows : CopyRows}
      → field_value arrow d field ≡ ok (range, rows)
      → (length rows.bytes ≤ length d.rows.bytes) × (rows.row_ends ≡ d.rows.row_ends)
  unfolding field_value
  field_value-shrinks d field {range} {rows} h =
      if-cases
        (λ (r : Result Failure (FieldRange × CopyRows)).
          r ≡ ok (range, rows)
          → (length rows.bytes ≤ length d.rows.bytes) × (rows.row_ends ≡ d.rows.row_ends))
        (list_beq field null_marker)
        (λ null e. ground (arith, length-take d.field_start d.rows.bytes))
        (λ text e.
          let (r, made, rest) =
            >>=-eq-ok (field_range_new d.field_start (length d.rows.bytes)) _ e in
          ground (arith, rest))
        h

  pub finish_field-IsBounded :
      {d e : CopyTextDecoder arrow} → IsBounded d → finish_field arrow d ≡ ok e → IsBounded e
  unfolding finish_field rows_len
  finish_field-IsBounded {d = d} b h =
      let (columns, h1) = reject-then (leb (length d.schema) d.row_fields) _ _ h in
      let (field, current, h2) = >>=-eq-ok (current_field arrow d) _ h1 in
      let (ended, valued, h3) = >>=-eq-ok (field_value arrow d field) _ h2 in
      let i = field_value-shrinks d field {range = ended.0} {rows = ended.1} valued in
      returned IsBounded
        (record d {
          rows = record ended.1 { fields = ended.1.fields ++ ended.0 ∷ [] };
          field_start = length ended.1.bytes;
          row_fields = d.row_fields + 1;
        })
        h3
        (record {
          row_within = b.row_within;
          rows_within = rw i.1 b.rows_within;
          bytes_within = b.bytes_within;
          ends_started = rw i.1 b.ends_started;
          held = omega (arith, b.held, i.0);
          row_start = λ none. absurd (omega (arith, none));
          batch_fits = b.batch_fits;
          row_fits = b.row_fits;
        })

  -- The same right after a row, before a full batch is flushed.
  pub record IsFinished (d : CopyTextDecoder arrow) : Type 0 where
    pub no_row : d.row_bytes ≡ 0
    pub some_rows : 0 < d.limits.max_rows
    pub some_bytes : 0 < d.limits.max_bytes
    pub finished : 1 < length d.rows.row_ends
    pub batch_fits : d.limits.max_bytes < u64_mod
    pub row_fits : d.limits.max_row_bytes + 1 < u64_mod
    pub held : (length d.rows.bytes ≤ d.batch_bytes) ⊎ (d.batch_bytes + 1 ≡ u64_mod)
    pub row_start : d.field_start ≡ length d.rows.bytes

  pub finish_row-IsFinished :
      {d e : CopyTextDecoder arrow} → IsBounded d → finish_row arrow d ≡ ok e → IsFinished e
  unfolding finish_row
  finish_row-IsFinished {d = d} b h =
      let (f, finished, rest) = >>=-eq-ok (finish_field arrow d) _ h in
      let i = finish_field-IsBounded b finished in
      ground (arith, length-append f.rows.row_ends (length f.rows.bytes ∷ []))

  pub flush-IsBounded :
      {d e : CopyTextDecoder arrow} {batches : List (arrow.RecordBatch)}
      → IsFinished d
      → flush arrow d ≡ ok (e, batches)
      → IsBounded e
  unfolding flush rows_len is_empty rows_new
  flush-IsBounded f h = ground arith
