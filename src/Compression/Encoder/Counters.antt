-- ===== src/Compression/Encoder/Counters.antt =====
-- What the counters of a stream say after a copy (`copy_unframed`, `copy_compressed` and
-- `record_block` of crates/quackgis-edge/src/compression.rs).
use quackgis.Base.{
  ℕ, ◌+◌, ◌≡◌, arith, Bytes, length, length-append, wrapping_add, saturating_add, u64_mod, ◌<◌,
}
use quackgis.Compression.Metrics.{DirectionMetrics, record_block, BlockClassification}
use quackgis.Compression.Format.{Lz4, block_header_bytes}
use quackgis.Compression.Encoder.{
  Reads, eof, failed, read, contents, Backoff, Block, encode_block, frame, compress_loop,
  copy_compressed,
}

-- The counters `n` follow from the counters `m` by `sent` bytes of the application in `wire` bytes.
pub record Counts (m n : DirectionMetrics) (sent wire : ℕ) : Type 0 where
  pub sent_is : n.uncompressed_bytes ≡ wrapping_add m.uncompressed_bytes sent
  pub wire_is : n.wire_bytes ≡ wrapping_add m.wire_bytes wire

record_block-uncompressed :
    (m : DirectionMetrics) (u w : ℕ) (c : BlockClassification)
    → (record_block m u w c).uncompressed_bytes ≡ wrapping_add m.uncompressed_bytes u
unfolding record_block
record_block-uncompressed m u w c = ground arith

record_block-wire :
    (m : DirectionMetrics) (u w : ℕ) (c : BlockClassification)
    → (record_block m u w c).wire_bytes ≡ wrapping_add m.wire_bytes w
unfolding record_block
record_block-wire m u w c = ground arith

pub record IsU64 (m : DirectionMetrics) : Type 0 where
  pub sent_lt : m.uncompressed_bytes < u64_mod
  pub wire_lt : m.wire_bytes < u64_mod

module _ (lz4 : Lz4) (elapsed : Bytes → ℕ) where
  -- Choosing a block counts its time only.
  encode_block-Counts :
      (b : Backoff) (m : DirectionMetrics) (input : Bytes)
      → let n = (encode_block lz4 elapsed b m input).1 in
        (n.uncompressed_bytes ≡ m.uncompressed_bytes) × (n.wire_bytes ≡ m.wire_bytes)
  unfolding encode_block
  encode_block-Counts b m input = ground arith

  length-frame :
      (input : Bytes) (block : Block)
      → length (frame lz4 elapsed input block) ≡ block_header_bytes + length block.payload
  unfolding frame
  length-frame input block = omega arith

  compress_loop-Counts :
      (b : Backoff) (total : ℕ) (m : DirectionMetrics) (reads : Reads)
      → IsU64 m
      → let c = compress_loop lz4 elapsed b total m reads in
        Counts m c.metrics (length (contents reads)) (length c.written)
  unfolding compress_loop
  compress_loop-Counts b total m eof v = ground arith
  compress_loop-Counts b total m failed v = ground arith
  compress_loop-Counts b total m (read input rest) v =
      let (b', m1, block) = encode_block lz4 elapsed b m input in
      let keeps = encode_block-Counts b m input in
      let wire = block_header_bytes + length block.payload in
      let m2 = record_block m1 (length input) wire block.classification in
      let sent_m2 = record_block-uncompressed m1 (length input) wire block.classification in
      let wire_m2 = record_block-wire m1 (length input) wire block.classification in
      let next = compress_loop lz4 elapsed b' (saturating_add total (length input)) m2 rest in
      let ih =
        compress_loop-Counts b' (saturating_add total (length input)) m2 rest
          (record { sent_lt = omega arith; wire_lt = omega arith }) in
      record {
        sent_is = omega (arith, ih.sent_is, length-append input (contents rest));
        wire_is = omega (
          arith,
          ih.wire_is,
          length-frame input block,
          length-append (frame lz4 elapsed input block) next.written,
        );
      }

  -- After a compressed copy, ended or broken off, the direction's counters have grown by the number
  -- of bytes read and by the number of bytes written, headers included, modulo 2^64.
  pub copy_compressed-Counts :
      (m : DirectionMetrics) (reads : Reads)
      → IsU64 m
      → let c = copy_compressed lz4 elapsed m reads in
        Counts m c.metrics (length (contents reads)) (length c.written)
  unfolding copy_compressed
  copy_compressed-Counts m reads v = compress_loop-Counts _ 0 m reads v
