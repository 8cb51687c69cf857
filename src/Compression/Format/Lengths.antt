-- ===== src/Compression/Format/Lengths.antt =====
-- Which block headers the decoder lets through (`validate_lengths` of
-- crates/quackgis-edge/src/compression.rs).
use quackgis.Base.{ℕ, ◌*◌, ◌^◌, ◌≤◌, ◌<◌, ◌≡◌, ◌↔◌, ◌⊎◌, arith, ok}
use quackgis.Compression.Format.{
  max_uncompressed_block_bytes, max_expansion_ratio, raw_block, lz4_block, to_be_bytes,
  from_be_bytes, validate_lengths,
}

-- A raw block of equal lengths, or an LZ4 block that is smaller than its contents and expands at
-- most 256 times; between 1 byte and 64 KiB in either case.
pub record IsBlock (kind uncompressed payload : ℕ) : Type 0 where
  pub uncompressed_pos : 1 ≤ uncompressed
  pub uncompressed_le : uncompressed ≤ max_uncompressed_block_bytes
  pub payload_pos : 1 ≤ payload
  pub payload_le : payload ≤ uncompressed
  pub kind_is :
      ((kind ≡ raw_block) × (payload ≡ uncompressed))
      ⊎ ((kind ≡ lz4_block)
          × (payload < uncompressed)
          × (uncompressed ≤ payload * max_expansion_ratio))

pub validate_lengths_sound :
    (kind uncompressed payload : ℕ)
    → validate_lengths kind uncompressed payload ≡ ok tt
    → IsBlock kind uncompressed payload
unfolding validate_lengths
validate_lengths_sound kind uncompressed payload h = record {
  uncompressed_pos = ground arith;
  uncompressed_le = ground arith;
  payload_pos = ground arith;
  payload_le = ground arith;
  kind_is = ground arith;
}

pub validate_lengths_complete :
    (kind uncompressed payload : ℕ)
    → IsBlock kind uncompressed payload
    → validate_lengths kind uncompressed payload ≡ ok tt
unfolding validate_lengths
validate_lengths_complete kind uncompressed payload b = ground (arith, b.kind_is)

-- The check passes exactly the headers of well-formed blocks.
pub validate_lengths_iff :
    (kind uncompressed payload : ℕ)
    → (validate_lengths kind uncompressed payload ≡ ok tt) ↔ IsBlock kind uncompressed payload
validate_lengths_iff kind uncompressed payload = (
  validate_lengths_sound kind uncompressed payload,
  validate_lengths_complete kind uncompressed payload,
)

pub from_be_bytes-to_be_bytes : (n : ℕ) → n < 2 ^ 32 → from_be_bytes (to_be_bytes n) ≡ n
from_be_bytes-to_be_bytes n h = omega arith
