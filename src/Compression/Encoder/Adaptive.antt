-- ===== src/Compression/Encoder/Adaptive.antt =====
-- How the encoder chooses between LZ4 and raw blocks (`copy_compressed` of
-- crates/quackgis-edge/src/compression.rs).
use quackgis.Base.{ℕ, ◌+◌, ◌-◌, ◌*◌, ◌≤◌, ◌<◌, ◌≡◌, ◌⊎◌, arith, Bytes, length}
use quackgis.Compression.Format.{
  max_uncompressed_block_bytes, incompressible_probes_before_backoff, incompressible_backoff_blocks,
  raw_block, lz4_block, Lz4,
}
use quackgis.Compression.Format.Lengths.{IsBlock}
use quackgis.Compression.Metrics.{DirectionMetrics}
use quackgis.Compression.Encoder.{Backoff, saves_enough, encode_block}

-- The counters between two blocks stay under their limits.
pub record IsBounded (b : Backoff) : Type 0 where
  pub probes_lt : b.incompressible_probes < incompressible_probes_before_backoff
  pub backoff_le : b.backoff_blocks ≤ incompressible_backoff_blocks

module _ (lz4 : Lz4) (elapsed : Bytes → ℕ) where
  pub encode_block-IsBounded :
      (b : Backoff) (m : DirectionMetrics) (input : Bytes)
      → IsBounded b
      → IsBounded (encode_block lz4 elapsed b m input).0
  unfolding encode_block
  encode_block-IsBounded b m input v = ground arith

  -- A block that the encoder makes of a read passes the decoder's check on lengths.
  pub encode_block-IsBlock :
      (b : Backoff) (m : DirectionMetrics) (input : Bytes)
      → 1 ≤ length input
      → length input ≤ max_uncompressed_block_bytes
      → let block = (encode_block lz4 elapsed b m input).2 in
        IsBlock block.kind (length input) (length block.payload)
  unfolding encode_block saves_enough
  encode_block-IsBlock b m input lo hi = ground (arith, lz4.compress_ratio input)

  -- A block is sent compressed only if that saves 64 bytes and 12 percent; else it is the input.
  pub encode_block_saves :
      (b : Backoff) (m : DirectionMetrics) (input : Bytes)
      → let block = (encode_block lz4 elapsed b m input).2 in
        ((block.kind ≡ raw_block) × (block.payload ≡ input))
        ⊎ ((block.kind ≡ lz4_block)
            × (block.payload ≡ lz4.compress input)
            × (length block.payload + 64 ≤ length input)
            × (length input * 12 ≤ (length input - length block.payload) * 100))
  unfolding encode_block saves_enough
  encode_block_saves b m input = ground arith
