-- ===== src/Copy/Push.antt =====
-- `CopyTextDecoder::push` and `finish`. The loop over a chunk keeps what remains of it where the
-- code keeps an offset, and the batches so far.
pub mod EndMarker
pub mod Within
pub mod Bounded
use quackgis.Base.{
  ℕ, zero, suc, ◌+◌, ◌-◌, Bool, true, false, not, ◌&&◌, ◌||◌, Option, none, some, List, [], ◌∷◌,
  ◌++◌, ltb, leb, ◌==◌, if◌then◌else◌, Bytes, list_beq, nat_Eq, length, take, Result, ok, err,
  reject, ◌>>=◌, ◌>>◌,
}
use quackgis.Copy.Errors.{Failure, exhausted, copy_failure}
use quackgis.Copy.Arrow.{Arrow}
use quackgis.Copy.Decoder.{
  CopyTextDecoder, max_batches_per_copy_chunk, tab, newline, carriage_return, end_marker,
  after_end_marker, split_delimiter, add_row_bytes, extend_field, current_field, truncated,
  finish_field, finish_row, should_flush, flush,
}

-- `bytes.last() == Some(&byte)`
abbrev pub last_is : ℕ → Bytes → Bool
last_is byte [] = false
last_is byte (b ∷ []) = b == byte
last_is byte (b ∷ c ∷ bs) = last_is byte (c ∷ bs)

module _ (arrow : Arrow) where
  -- A decoder, what remains of the chunk, and the batches so far.
  abbrev pub Progress : Type 0
  Progress = CopyTextDecoder arrow × Bytes × List (arrow.RecordBatch)

  -- A carriage return at the end of the field is no part of it.
  unfoldable pub strip_carriage_return : CopyTextDecoder arrow → CopyTextDecoder arrow
  strip_carriage_return d =
      let size = length d.rows.bytes in
      if ltb d.field_start size && last_is carriage_return d.rows.bytes
      then record d { rows = record d.rows { bytes = take (size - 1) d.rows.bytes } }
      else d

  unfoldable pub flush_full :
      CopyTextDecoder arrow → Bytes → List (arrow.RecordBatch) → Result Failure Progress
  flush_full d after batches = if not (should_flush arrow d) then ok (d, after, batches) else do
    flushed ← flush arrow d
    let all_batches = batches ++ flushed.1
    reject (ltb max_batches_per_copy_chunk (length all_batches))
        (copy_failure "54000" "one COPY data chunk produces too many Arrow batches")
    ok (flushed.0, after, all_batches)

  -- A newline. After the end marker the loop goes on where it was: `continue` stands before the
  -- offset moves.
  unfoldable pub end_line :
      CopyTextDecoder arrow → Bytes → Bytes → List (arrow.RecordBatch) → Result Failure Progress
  unfolding flush_full strip_carriage_return
  end_line decoder remaining after batches = do
    let d = strip_carriage_return decoder
    field ← current_field arrow d
    if d.row_fields == 0 && list_beq field end_marker
        then ok (
          record d { rows = truncated arrow d; row_bytes = 0; terminated = true },
          remaining,
          batches,
        )
        else do e ← finish_row arrow d; flush_full e after batches

  -- A tab.
  unfoldable pub end_field :
      CopyTextDecoder arrow → Bytes → List (arrow.RecordBatch) → Result Failure Progress
  end_field decoder after batches = do d ← finish_field arrow decoder; ok (d, after, batches)

  -- The text up to a delimiter, or to the end of the chunk.
  unfoldable pub read_text :
      CopyTextDecoder arrow
      → Bytes
      → List (arrow.RecordBatch)
      → Option (Bytes × ℕ × Bytes)
      → Result Failure Progress
  unfolding end_line end_field
  read_text decoder remaining batches none = do
    d ← extend_field arrow decoder remaining
    ok (d, [], batches)
  read_text decoder remaining batches (some (before, delimiter, after)) = do
    extended ← extend_field arrow decoder before
    d ← add_row_bytes arrow extended 1
    if delimiter == tab then end_field d after batches else end_line d remaining after batches

  -- One round of the loop, where something remains.
  unfoldable pub push_round :
      CopyTextDecoder arrow → Bytes → List (arrow.RecordBatch) → Result Failure Progress
  unfolding read_text
  push_round decoder remaining batches = do
    reject decoder.terminated after_end_marker
    read_text decoder remaining batches (split_delimiter remaining)

  -- On fuel: a round shortens what remains or meets the end marker, after which one more fails.
  unfoldable pub push_loop :
      ℕ
      → CopyTextDecoder arrow
      → Bytes
      → List (arrow.RecordBatch)
      → Result Failure (CopyTextDecoder arrow × List (arrow.RecordBatch))
  push_loop fuel decoder [] batches = ok (decoder, batches)
  push_loop zero decoder (b ∷ bs) batches = err exhausted
  push_loop (suc fuel) decoder (b ∷ bs) batches = do
    (d, remaining, so_far) ← push_round decoder (b ∷ bs) batches
    push_loop fuel d remaining so_far

  unfoldable pub push :
      CopyTextDecoder arrow
      → Bytes
      → Result Failure (CopyTextDecoder arrow × List (arrow.RecordBatch))
  push decoder bytes = do
    reject (decoder.terminated && not (length bytes == 0)) after_end_marker
    push_loop (suc (length bytes)) decoder bytes []

  unfoldable pub finish :
      CopyTextDecoder arrow → Result Failure (CopyTextDecoder arrow × List (arrow.RecordBatch))
  finish decoder = do
    ended ←
        if not decoder.terminated
          && (ltb decoder.field_start (length decoder.rows.bytes) || ltb 0 decoder.row_fields)
        then finish_row arrow decoder
        else ok decoder
    flush arrow ended
