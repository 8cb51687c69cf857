-- ===== src/Compression/RoundTrip.antt =====
-- What the encoder writes, the decoder reads back (`copy_compressed` and `copy_decompressed` of
-- crates/quackgis-edge/src/compression.rs).
use mathlib.Core.Option
use quackgis.Base.{
  ℕ, zero, suc, ◌+◌, ◌≤◌, ◌<◌, ◌≡◌, inl, inr, refl, ap, ◌∙◌, [], ◌++◌, arith, ok, Bytes, length,
  length-append, take-length-append, drop-length-append, some, saturating_add, append_assoc,
}
use quackgis.Compression.Format.{Lz4, to_be_bytes, max_uncompressed_block_bytes, block_header_bytes}
use quackgis.Compression.Format.Lengths.{
  IsBlock, validate_lengths_complete, from_be_bytes-to_be_bytes,
}
use quackgis.Compression.Metrics.{
  BlockClassification, compressed, classify_raw, DirectionMetrics, record_block,
}
use quackgis.Compression.Encoder.{
  Reads, eof, failed, read, IsReads, contents, Copied, write_all, Backoff, encode_block, frame,
  compress_loop, copy_compressed,
}
use quackgis.Compression.Encoder.Adaptive.{encode_block-IsBlock, encode_block_saves}
use quackgis.Compression.Decoder.{
  read_exact, decode_payload, read_block, recorded, decompress_loop, copy_decompressed,
}

read_exact-append : (n : ℕ) (a b : Bytes) → n ≡ length a → read_exact n (a ++ b) ≡ ok (a, b)
unfolding read_exact
read_exact-append n a b e =
    rw e (ground (arith, length-append a b, take-length-append a b, drop-length-append a b))

-- The saturated sum of the lengths of the reads.
abbrev pub read_total : ℕ → Reads → ℕ
read_total total eof = total
read_total total failed = total
read_total total (read input rest) = read_total (saturating_add total (length input)) rest

module _ (lz4 : Lz4) (elapsed : Bytes → ℕ) where
  -- A frame with the header of a block, whose payload decodes, is read as that block.
  read_block-frame :
      (kind : ℕ) (input payload decoded rest : Bytes) (classification : BlockClassification)
      → IsBlock kind (length input) (length payload)
      → decode_payload lz4 elapsed kind payload (length input) ≡ ok (decoded, classification)
      → read_block lz4 elapsed kind
          (to_be_bytes (length input) ++ (to_be_bytes (length payload) ++ (payload ++ rest)))
        ≡ ok (record {
          uncompressed_length = length input;
          payload = payload;
          decoded = decoded;
          classification = classification;
          rest = rest;
        })
  unfolding read_block
  read_block-frame kind input payload decoded rest classification b d =
      rw
        (
          read_exact-append 8 (to_be_bytes (length input) ++ to_be_bytes (length payload))
              (payload ++ rest) refl,
          from_be_bytes-to_be_bytes (length input) (ground (arith, b.uncompressed_le)),
          from_be_bytes-to_be_bytes (length payload)
              (ground (arith, b.uncompressed_le, b.payload_le)),
          validate_lengths_complete kind (length input) (length payload) b,
          read_exact-append (length payload) payload rest refl,
          d,
        )
        refl

  decode_payload-encode_block :
      (b : Backoff) (m : DirectionMetrics) (input : Bytes)
      → let block = (encode_block lz4 elapsed b m input).2 in
        (c : BlockClassification) × (decode_payload lz4 elapsed block.kind block.payload
            (length input)
          ≡ ok (input, c))
  unfolding decode_payload
  decode_payload-encode_block b m input = elim (encode_block_saves lz4 elapsed b m input) [
    | inl (k, p) ↦ (classify_raw (length input), ground (arith, k, p))
    | inr (k, p, _, _) ↦ (compressed, ground (arith, k, p, lz4.decompress-compress input))
  ]

  -- One round of the decoder on a frame of the encoder.
  decompress_loop-frame :
      (b : Backoff) (m m' : DirectionMetrics) (input rest : Bytes) (fuel total : ℕ)
      → 1 ≤ length input
      → length input ≤ max_uncompressed_block_bytes
      → (m'' : DirectionMetrics) × (decompress_loop lz4 elapsed
            (suc fuel)
            total
            m'
            (frame lz4 elapsed input (encode_block lz4 elapsed b m input).2 ++ rest)
          ≡ Option.map
              (write_all input)
              (decompress_loop lz4 elapsed fuel (saturating_add total (length input)) m'' rest))
  unfolding decompress_loop frame
  decompress_loop-frame b m m' input rest fuel total lo hi =
      let block = (encode_block lz4 elapsed b m input).2 in
      let (c, d) = decode_payload-encode_block b m input in
      let fits = encode_block-IsBlock lz4 elapsed b m input lo hi in
      let e = read_block-frame block.kind input block.payload input rest c fits d in
      (
        recorded lz4 elapsed m' (record {
          uncompressed_length = length input;
          payload = block.payload;
          decoded = input;
          classification = c;
          rest = rest;
        }),
        rw (append_assoc, append_assoc) (rw (e, decompress_loop) (ground arith)),
      )

  decompress_loop-compress_loop :
      (reads : Reads) (b : Backoff) (m m' : DirectionMetrics) (sent total fuel : ℕ)
      → IsReads reads
      → let stream = (compress_loop lz4 elapsed b sent m reads).written in
        length stream < fuel
        → (c : Copied) × (decompress_loop lz4 elapsed fuel total m' stream ≡ some c)
          × (c.written ≡ contents reads)
          × (c.result ≡ ok (read_total total reads))
  unfolding decompress_loop compress_loop frame
  decompress_loop-compress_loop reads b m m' sent total zero ok_reads enough = absurd (omega arith)
  decompress_loop-compress_loop eof b m m' sent total (suc fuel) ok_reads enough =
      (record { metrics = m'; written = []; result = ok total }, refl, refl, refl)
  decompress_loop-compress_loop failed b m m' sent total (suc fuel) ok_reads enough =
      (record { metrics = m'; written = []; result = ok total }, refl, refl, refl)
  decompress_loop-compress_loop (read input rest) b m m' sent total (suc fuel) (lo, hi, ok_rest)
        enough =
      let (b', m1, block) = encode_block lz4 elapsed b m input in
      let sent' = saturating_add sent (length input) in
      let m2 =
        record_block m1 (length input) (block_header_bytes + length block.payload)
          block.classification in
      let later = (compress_loop lz4 elapsed b' sent' m2 rest).written in
      let (m3, step) = decompress_loop-frame b m m' input later fuel total lo hi in
      let (c, e, w, r) =
        decompress_loop-compress_loop rest b' m2 m3 sent' (saturating_add total (length input)) fuel
          ok_rest (omega (arith, length-append (frame lz4 elapsed input block) later)) in
      (write_all input c, step ∙ ap (Option.map (write_all input)) e, ap (◌++◌ input) w, r)

  -- The decoder turns what the encoder wrote back into the bytes that the encoder read, whatever
  -- blocks it sent compressed, and reports their number (saturated at the largest u64); it never runs
  -- out of fuel.
  pub copy_decompressed-copy_compressed :
      (m m' : DirectionMetrics) (reads : Reads)
      → IsReads reads
      → (c : Copied) × (copy_decompressed lz4 elapsed m'
            (copy_compressed lz4 elapsed m reads).written
          ≡ some c)
        × (c.written ≡ contents reads)
        × (c.result ≡ ok (read_total 0 reads))
  unfolding copy_decompressed copy_compressed
  copy_decompressed-copy_compressed m m' reads h =
      decompress_loop-compress_loop reads _ m m' 0 0 _ h (omega arith)
