-- ===== src/Copy/Push/Bounded.antt =====
-- What a decoder keeps between its operations: less than a full batch, and rows within their limit.
use quackgis.Base.{
  ℕ, zero, suc, ◌<◌, ◌≡◌, true, false, not, ◌&&◌, Option, none, some, List, [], ◌∷◌, ◌==◌, inl, inr,
  Bool-cases, if-cases, Bytes, length, length-take, u64_mod, ◌+◌, ◌-◌, list_beq, nat_Eq, ok, reject,
  >>=-eq-ok, arith,
}
use quackgis.Copy.Rows.{rows_len, rows_new}
use quackgis.Copy.Arrow.{Arrow, DataType}
use quackgis.Copy.Decoder.{
  CopyTextDecoder, CopyBatchLimits, after_end_marker, split_delimiter, tab, end_marker, decoder_new,
  add_row_bytes, extend_field, finish_field, truncated, current_field, finish_row, should_flush,
  flush,
}
use quackgis.Copy.Push.{
  Progress, strip_carriage_return, flush_full, end_line, end_field, read_text, push_round,
  push_loop, push,
}
use quackgis.Copy.Push.Within.{
  IsBounded, IsFinished, add_row_bytes-IsBounded, extend_field-IsBounded, finish_field-IsBounded,
  finish_row-IsFinished, flush-IsBounded,
}

module _ (arrow : Arrow) where
  not_full-IsBounded :
      {d : CopyTextDecoder arrow} {p : Progress arrow} (after : Bytes)
      (so_far : List (arrow.RecordBatch))
      → IsFinished arrow d
      → should_flush arrow d ≡ false
      → flush_full arrow d after so_far ≡ ok p
      → IsBounded arrow p.0
  unfolding flush_full should_flush rows_len
  not_full-IsBounded {d = d} after so_far f room h = ground arith

  flush_full-IsBounded :
      {d : CopyTextDecoder arrow} {p : Progress arrow} (after : Bytes)
      (so_far : List (arrow.RecordBatch))
      → IsFinished arrow d
      → flush_full arrow d after so_far ≡ ok p
      → IsBounded arrow p.0
  unfolding flush_full
  flush_full-IsBounded {d = d} after so_far f h = elim (Bool-cases (should_flush arrow d)) [
    | inl full ↦
        (let (x, flushed, rest) = >>=-eq-ok (flush arrow d) _ (rw full at h) in
          let i = flush-IsBounded arrow {e = x.0} {batches = x.1} f flushed in ground arith)
    | inr room ↦ not_full-IsBounded after so_far f room h
  ]

  end_field-IsBounded :
      {d : CopyTextDecoder arrow} {p : Progress arrow} (after : Bytes)
      (so_far : List (arrow.RecordBatch))
      → IsBounded arrow d
      → end_field arrow d after so_far ≡ ok p
      → IsBounded arrow p.0
  unfolding end_field
  end_field-IsBounded {d = d} after so_far b h =
      let (e, finished, rest) = >>=-eq-ok (finish_field arrow d) _ h in
      let i = finish_field-IsBounded arrow b finished in ground arith

  strip-IsBounded :
      (d : CopyTextDecoder arrow)
      → IsBounded arrow d
      → IsBounded arrow (strip_carriage_return arrow d)
  unfolding strip_carriage_return rows_len
  strip-IsBounded d b = ground (arith, length-take (length d.rows.bytes - 1) d.rows.bytes)

  marked-IsBounded :
      (d : CopyTextDecoder arrow)
      → d.row_fields ≡ 0
      → IsBounded arrow d
      → IsBounded arrow (record d { rows = truncated arrow d; row_bytes = 0; terminated = true })
  unfolding rows_len
  marked-IsBounded d start b =
      ground (arith, start, b.row_start start, length-take d.field_start d.rows.bytes)

  end_line-IsBounded :
      {d : CopyTextDecoder arrow} {p : Progress arrow} (remaining after : Bytes)
      (so_far : List (arrow.RecordBatch))
      → IsBounded arrow d
      → end_line arrow d remaining after so_far ≡ ok p
      → IsBounded arrow p.0
  unfolding end_line
  end_line-IsBounded {d = d} remaining after so_far b h =
      let e = strip_carriage_return arrow d in
      let i = strip-IsBounded d b in
      let (field, current, rest) = >>=-eq-ok (current_field arrow e) _ h in
      elim (Bool-cases (e.row_fields == 0 && list_beq field end_marker)) [
        | inl marker ↦
            (let done = rw marker at rest in
              let start : e.row_fields ≡ 0 = ground (arith, marker) in
              let kept = marked-IsBounded e start i in ground arith)
        | inr row ↦
            (let (f, finished, flushes) = >>=-eq-ok (finish_row arrow e) _ (rw row at rest) in
              flush_full-IsBounded after so_far (finish_row-IsFinished arrow i finished) flushes)
      ]

  read_text-IsBounded :
      {d : CopyTextDecoder arrow} {p : Progress arrow} (remaining : Bytes)
      (so_far : List (arrow.RecordBatch)) (found : Option (Bytes × ℕ × Bytes))
      → IsBounded arrow d
      → read_text arrow d remaining so_far found ≡ ok p
      → IsBounded arrow p.0
  unfolding read_text
  read_text-IsBounded {d = d} remaining so_far none b h =
      let (e, extended, rest) = >>=-eq-ok (extend_field arrow d remaining) _ h in
      let i = extend_field-IsBounded arrow remaining b extended in ground arith
  read_text-IsBounded {d = d} {p = p} remaining so_far (some (before, delimiter, after)) b h =
      let (e, extended, counts) = >>=-eq-ok (extend_field arrow d before) _ h in
      let (f, counted, ends) = >>=-eq-ok (add_row_bytes arrow e 1) _ counts in
      let i =
        add_row_bytes-IsBounded arrow 1 (extend_field-IsBounded arrow before b extended) counted in
      if-cases (λ r. r ≡ ok p → IsBounded arrow p.0) (delimiter == tab)
        (λ _ e. end_field-IsBounded after so_far i e)
        (λ _ e. end_line-IsBounded remaining after so_far i e) ends

  push_round-IsBounded :
      {d : CopyTextDecoder arrow} {p : Progress arrow} (remaining : Bytes)
      (so_far : List (arrow.RecordBatch))
      → IsBounded arrow d
      → push_round arrow d remaining so_far ≡ ok p
      → IsBounded arrow p.0
  unfolding push_round
  push_round-IsBounded {d = d} remaining so_far b h =
      let (_, runs, rest) = >>=-eq-ok (reject d.terminated after_end_marker) _ h in
      read_text-IsBounded remaining so_far (split_delimiter remaining) b rest

  push_loop-IsBounded :
      (fuel : ℕ) (d : CopyTextDecoder arrow) (remaining : Bytes) (so_far : List (arrow.RecordBatch))
      {e : CopyTextDecoder arrow} {batches : List (arrow.RecordBatch)}
      → IsBounded arrow d
      → push_loop arrow fuel d remaining so_far ≡ ok (e, batches)
      → IsBounded arrow e
  unfolding push_loop
  push_loop-IsBounded fuel d [] so_far b h = ground arith
  push_loop-IsBounded zero d (c ∷ cs) so_far b h = cc
  push_loop-IsBounded (suc fuel) d (c ∷ cs) so_far b h =
      let (p, round, rest) = >>=-eq-ok (push_round arrow d (c ∷ cs) so_far) _ h in
      push_loop-IsBounded fuel p.0 p.1 p.2 (push_round-IsBounded (c ∷ cs) so_far b round) rest

  decoder_new-IsBounded :
      {d : CopyTextDecoder arrow} (schema : List (DataType × arrow.Metadata))
      (limits : CopyBatchLimits)
      → limits.max_bytes < u64_mod
      → limits.max_row_bytes + 1 < u64_mod
      → decoder_new arrow schema limits ≡ ok d
      → IsBounded arrow d
  unfolding decoder_new rows_len rows_new
  decoder_new-IsBounded schema limits batch row h = ground arith

  -- The decoders that a new one becomes as chunks are pushed.
  pub data Fed (schema : List (DataType × arrow.Metadata)) (limits : CopyBatchLimits)
      : CopyTextDecoder arrow → Type 0 where
    fresh :
        {d : CopyTextDecoder arrow} → decoder_new arrow schema limits ≡ ok d → Fed schema limits d
    fed :
        {d e : CopyTextDecoder arrow} {batches : List (arrow.RecordBatch)} (chunk : Bytes)
        → Fed schema limits d
        → push arrow d chunk ≡ ok (e, batches)
        → Fed schema limits e

  Fed_lem :
      {schema : List (DataType × arrow.Metadata)} {limits : CopyBatchLimits}
      {d : CopyTextDecoder arrow}
      → limits.max_bytes < u64_mod
      → limits.max_row_bytes + 1 < u64_mod
      → Fed schema limits d
      → IsBounded arrow d
  unfolding push
  Fed_lem {schema = schema} {limits = limits} batch row (fresh h) =
      decoder_new-IsBounded schema limits batch row h
  Fed_lem batch row (fed {d = d} chunk before h) =
      let (_, running, rest) =
        >>=-eq-ok (reject (d.terminated && not (length chunk == 0)) after_end_marker) _ h in
      push_loop-IsBounded (suc (length chunk)) d chunk [] (Fed_lem batch row before) rest

  -- However its chunks are cut, a decoder keeps fewer finished rows and counts fewer of their bytes
  -- than a batch may have, counts an unfinished row within the limit of a row, and holds fewer bytes
  -- of text in all than a batch and a row may have together. The limits are words of 64 bits, that of
  -- a row not the largest word.
  pub Fed-IsBounded :
      {schema : List (DataType × arrow.Metadata)} {limits : CopyBatchLimits}
      {d : CopyTextDecoder arrow}
      → limits.max_bytes < u64_mod
      → limits.max_row_bytes + 1 < u64_mod
      → Fed schema limits d
      → IsBounded arrow d × (length d.rows.bytes < d.limits.max_bytes + d.limits.max_row_bytes)
  Fed-IsBounded batch row fed_chunks =
      let b = Fed_lem batch row fed_chunks in
      (b, omega (arith, b.held, b.bytes_within, b.row_within))
