-- ===== src/Compression/Decoder.antt =====
-- The receiving half of a compressed stream: `copy_decompressed` of
-- crates/quackgis-edge/src/compression.rs. The stream is the bytes up to its end; the loop takes at
-- least one byte a round, so the number of bytes and one more is fuel enough.
pub mod Safe
use mathlib.Core.Option
use quackgis.Base.{
  ℕ, zero, suc, ◌+◌, Bool, true, false, not, List, [], ◌∷◌, ◌++◌, leb, ◌==◌, if◌then◌else◌, Bytes,
  Result, ok, err, ◌>>=◌, ◌>>◌, reject, Option, none, some, length, take, drop, wrapping_add,
  saturating_add,
}
use quackgis.Compression.Format.{
  block_header_bytes, raw_block, IoError, unexpected_eof, invalid_lz4_block, wrong_decoded_length,
  from_be_bytes, validate_lengths, Lz4,
}
use quackgis.Compression.Metrics.{
  BlockClassification, compressed, DirectionMetrics, record_block, classify_raw,
}
use quackgis.Compression.Encoder.{Copied, write_all}

-- `read_exact`: the bytes read and the bytes left.
unfoldable pub read_exact : ℕ → Bytes → Result IoError (Bytes × Bytes)
read_exact n stream =
    if leb n (length stream) then ok (take n stream, drop n stream) else err unexpected_eof

pub record DecodedBlock : Type 0 where
  pub uncompressed_length : ℕ
  pub payload : Bytes
  pub decoded : Bytes
  pub classification : BlockClassification
  pub rest : Bytes

or_invalid : Option Bytes → Result IoError Bytes
or_invalid none = err invalid_lz4_block
or_invalid (some b) = ok b

module _ (lz4 : Lz4) (elapsed : Bytes → ℕ) where
  -- the `match` on a validated block kind
  unfoldable pub decode_payload : ℕ → Bytes → ℕ → Result IoError (Bytes × BlockClassification)
  unfolding or_invalid
  decode_payload kind payload uncompressed_length =
      if kind == raw_block then ok (payload, classify_raw uncompressed_length) else do
        decoded ← or_invalid (lz4.decompress payload uncompressed_length)
        ok (decoded, compressed)

  -- a block after its kind, up to its decoded bytes
  unfoldable pub read_block : ℕ → Bytes → Result IoError DecodedBlock
  read_block kind stream = do
    lengths ← read_exact 8 stream
    let uncompressed_length = from_be_bytes (take 4 lengths.0)
    let payload_length = from_be_bytes (drop 4 lengths.0)
    validate_lengths kind uncompressed_length payload_length
    payload ← read_exact payload_length lengths.1
    decoded ← decode_payload kind payload.0 uncompressed_length
    ok (record {
      uncompressed_length = uncompressed_length;
      payload = payload.0;
      decoded = decoded.0;
      classification = decoded.1;
      rest = payload.1;
    })

  -- An error ends the copy, and is counted.
  abbrev pub fail : DirectionMetrics → IoError → Copied
  fail m e = record {
    metrics = record m { decode_failures = wrapping_add m.decode_failures 1 };
    written = [];
    result = err e;
  }

  -- the counters after the decompression of a block
  abbrev pub timed : DirectionMetrics → DecodedBlock → DirectionMetrics
  timed m block = record m {
    decompression_cpu_nanos = wrapping_add m.decompression_cpu_nanos (elapsed block.payload);
  }

  abbrev pub recorded : DirectionMetrics → DecodedBlock → DirectionMetrics
  recorded m block =
      record_block (timed m block) block.uncompressed_length
        (block_header_bytes + length block.payload) block.classification

  -- `none` when the fuel runs out
  unfoldable pub decompress_loop : ℕ → ℕ → DirectionMetrics → Bytes → Option Copied
  decompress_loop zero total m stream = none
  decompress_loop (suc fuel) total m [] =
      some (record { metrics = m; written = []; result = ok total })
  decompress_loop (suc fuel) total m (kind ∷ stream) = elim (read_block kind stream) [
    | err e ↦ some (fail m e)
    | ok block ↦ elim (length block.decoded == block.uncompressed_length) [
      | false ↦ some (fail (timed m block) wrong_decoded_length)
      | true ↦ Option.map (write_all block.decoded) (
          decompress_loop fuel (saturating_add total block.uncompressed_length) (recorded m block)
            block.rest)
    ]
  ]

  -- `copy_decompressed`
  unfoldable pub copy_decompressed : DirectionMetrics → Bytes → Option Copied
  copy_decompressed m stream = decompress_loop (suc (length stream)) 0 m stream
