-- ===== src/Copy/Push/EndMarker.antt =====
-- The end marker of COPY text, as `CopyTextDecoder::push` treats it.
use quackgis.Base.{
  ℕ, ◌+◌, ◌^◌, ◌≤◌, ◌<◌, ◌≡◌, refl, ap, sym, ◌∙◌, Bool, true, false, ◌&&◌, some, List, [], ◌∷◌,
  ◌++◌, append_assoc, ltb, leb, ◌==◌, nat_Eq, Bytes, length, length-append, drop-length-append,
  saturating_add, ok, err, arith,
}
use quackgis.Copy.Escapes.{backslash}
use quackgis.Copy.Arrow.{Arrow}
use quackgis.Copy.Decoder.{
  CopyTextDecoder, newline, carriage_return, end_marker, after_end_marker, split_delimiter,
  add_row_bytes, extend_field, current_field, truncated,
}
use quackgis.Copy.Push.{
  last_is, strip_carriage_return, end_line, read_text, push_round, push_loop, push,
}

last_is-append : (byte c : ℕ) (xs : Bytes) → last_is byte (xs ++ c ∷ []) ≡ (c == byte)
last_is-append byte c [] = refl
last_is-append byte c (x ∷ []) = refl
last_is-append byte c (x ∷ y ∷ xs) = last_is-append byte c (y ∷ xs)

and_false : (b : Bool) → (b && false) ≡ false
and_false true = refl
and_false false = refl

fits_append : (xs ys : Bytes) → leb (length xs) (length (xs ++ ys)) ≡ true
fits_append xs ys = ground (arith, length-append xs ys)

module _ (arrow : Arrow) where
  -- At the start of a row, where the limit leaves room for the line.
  pub record AtRowStart (d : CopyTextDecoder arrow) : Type 0 where
    pub running : d.terminated ≡ false
    pub no_fields : d.row_fields ≡ 0
    pub no_text : d.field_start ≡ length d.rows.bytes
    pub room : d.row_bytes + 3 ≤ d.limits.max_row_bytes
    pub word : d.limits.max_row_bytes < 2 ^ 64

  add_row_bytes_room :
      (d : CopyTextDecoder arrow) (count total : ℕ)
      → total ≡ d.row_bytes + count
      → total ≤ d.limits.max_row_bytes
      → d.limits.max_row_bytes < 2 ^ 64
      → add_row_bytes arrow d count ≡ ok (record d { row_bytes = total })
  unfolding add_row_bytes
  add_row_bytes_room d count total e room word = rw (counted, room_left) refl
    where
      counted : saturating_add d.row_bytes count ≡ total
      counted = ground arith

      room_left : ltb d.limits.max_row_bytes total ≡ false
      room_left = ground arith

  -- The decoder with the text of the line, its newline counted.
  abbrev with_marker : CopyTextDecoder arrow → CopyTextDecoder arrow
  with_marker d = record d {
    row_bytes = d.row_bytes + 3;
    rows = record d.rows { bytes = d.rows.bytes ++ end_marker };
  }

  abbrev with_marker_text : CopyTextDecoder arrow → CopyTextDecoder arrow
  with_marker_text d = record d {
    row_bytes = d.row_bytes + 2;
    rows = record d.rows { bytes = d.rows.bytes ++ end_marker };
  }

  extend_marker :
      (d : CopyTextDecoder arrow)
      → AtRowStart d
      → extend_field arrow d end_marker ≡ ok (with_marker_text d)
  unfolding extend_field
  extend_marker d at =
      rw (add_row_bytes_room d 2 (d.row_bytes + 2) refl (omega (arith, at.room)) at.word) refl

  count_newline :
      (d : CopyTextDecoder arrow)
      → AtRowStart d
      → add_row_bytes arrow (with_marker_text d) 1 ≡ ok (with_marker d)
  count_newline d at =
      add_row_bytes_room (with_marker_text d) 1 (d.row_bytes + 3) (omega arith) at.room at.word

  no_return : (xs : Bytes) → last_is carriage_return (xs ++ end_marker) ≡ false
  no_return xs =
      ap (last_is carriage_return) (sym (append_assoc xs (backslash ∷ []) (b'.' ∷ [])))
      ∙ last_is-append carriage_return b'.' (xs ++ backslash ∷ [])

  strip_marker :
      (d : CopyTextDecoder arrow) → strip_carriage_return arrow (with_marker d) ≡ with_marker d
  unfolding strip_carriage_return
  strip_marker d =
      rw
        (
          no_return d.rows.bytes,
          and_false (ltb d.field_start (length (d.rows.bytes ++ end_marker))),
        )
        refl

  marker_field :
      (d : CopyTextDecoder arrow)
      → AtRowStart d
      → current_field arrow (with_marker d) ≡ ok end_marker
  unfolding current_field
  marker_field d at =
      rw at.no_text
        (rw (fits_append d.rows.bytes end_marker, drop-length-append d.rows.bytes end_marker) refl)

  -- The newline of the marker's line: the decoder ends, and the loop stays where it was.
  end_line-marker :
      (d : CopyTextDecoder arrow) (remaining after : Bytes) (batches : List (arrow.RecordBatch))
      → AtRowStart d
      → end_line arrow (with_marker d) remaining after batches
        ≡ ok (
          record (with_marker d) {
            rows = truncated arrow (with_marker d);
            row_bytes = 0;
            terminated = true;
          },
          remaining,
          batches,
        )
  unfolding end_line
  end_line-marker d remaining after batches at =
      rw (strip_marker d, marker_field d at, at.no_fields) refl

  split_marker :
      (rest : Bytes)
      → split_delimiter (end_marker ++ newline ∷ rest) ≡ some (end_marker, newline, rest)
  unfolding split_delimiter
  split_marker rest = refl

  push_round-marker :
      (d : CopyTextDecoder arrow) (rest : Bytes)
      → AtRowStart d
      → push_round arrow d (end_marker ++ newline ∷ rest) []
        ≡ ok (
          record (with_marker d) {
            rows = truncated arrow (with_marker d);
            row_bytes = 0;
            terminated = true;
          },
          end_marker ++ newline ∷ rest,
          [],
        )
  unfolding push_round read_text split_delimiter
  push_round-marker d rest at =
      rw
        (
          extend_marker d at,
          count_newline d at,
          end_line-marker d (end_marker ++ newline ∷ rest) rest [] at,
          at.running,
        )
        refl

  push_round-terminated :
      (d : CopyTextDecoder arrow) (remaining : Bytes) (batches : List (arrow.RecordBatch))
      → d.terminated ≡ true
      → push_round arrow d remaining batches ≡ err after_end_marker
  unfolding push_round
  push_round-terminated d remaining batches h = rw h refl

  abbrev ended : CopyTextDecoder arrow → CopyTextDecoder arrow
  ended d = record (with_marker d) {
    rows = truncated arrow (with_marker d);
    row_bytes = 0;
    terminated = true;
  }

  -- A line with the end marker alone, at the start of a row and within the limit of bytes, ends the
  -- chunk with the error for data after the marker, whatever follows it, nothing included.
  pub push-end_marker :
      (d : CopyTextDecoder arrow) (rest : Bytes)
      → AtRowStart d
      → push arrow d (end_marker ++ newline ∷ rest) ≡ err after_end_marker
  unfolding push push_loop
  push-end_marker d rest at =
      rw
        (
          push_round-marker d rest at,
          push_round-terminated (ended d) (end_marker ++ newline ∷ rest) [] refl,
          at.running,
        )
        refl
