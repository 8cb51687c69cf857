-- ===== src/Compression/Format.antt =====
-- The block format of crates/quackgis-edge/src/compression.rs: its limits, its header, the check
-- on the two lengths, and what is taken from the lz4_flex crate.
pub mod Lengths
use quackgis.Base.{
  ℕ, ◌+◌, ◌*◌, ◌/◌, ◌%◌, ◌^◌, ◌≤◌, ◌≡◌, Bool, not, ◌&&◌, ◌||◌, List, [], ◌∷◌, ltb, leb, ◌==◌, Bytes,
  Result, ◌>>=◌, ◌>>◌, reject, length, Option, some,
}

abbrev pub max_uncompressed_block_bytes : ℕ
max_uncompressed_block_bytes = 64 * 1024

abbrev pub max_compressed_block_bytes : ℕ
max_compressed_block_bytes = max_uncompressed_block_bytes

abbrev pub max_expansion_ratio : ℕ
max_expansion_ratio = 256

abbrev pub min_compression_input_bytes : ℕ
min_compression_input_bytes = 1024

abbrev pub min_compression_savings_bytes : ℕ
min_compression_savings_bytes = 64

abbrev pub min_compression_savings_percent : ℕ
min_compression_savings_percent = 12

abbrev pub incompressible_probes_before_backoff : ℕ
incompressible_probes_before_backoff = 2

abbrev pub incompressible_backoff_blocks : ℕ
incompressible_backoff_blocks = 8

abbrev pub block_header_bytes : ℕ
block_header_bytes = 9

abbrev pub raw_block : ℕ
raw_block = 0

abbrev pub lz4_block : ℕ
lz4_block = 1

-- The errors that end a copy; all but the two of the reader are of kind `InvalidData`.
pub data IoError : Type 0 where
  read_failed unexpected_eof unknown_block_kind length_limit raw_lengths_differ : IoError
  savings_or_ratio_limit invalid_lz4_block wrong_decoded_length : IoError

-- `u32::to_be_bytes` and `u32::from_be_bytes`.
abbrev pub to_be_bytes : ℕ → Bytes
to_be_bytes n = n / 2 ^ 24 % 256 ∷ n / 2 ^ 16 % 256 ∷ n / 2 ^ 8 % 256 ∷ n % 256 ∷ []

abbrev pub from_be_bytes : Bytes → ℕ
from_be_bytes (a ∷ b ∷ c ∷ d ∷ _) = a * 2 ^ 24 + b * 2 ^ 16 + c * 2 ^ 8 + d
from_be_bytes _ = 0

unfoldable pub validate_lengths : ℕ → ℕ → ℕ → Result IoError (Unit {0})
validate_lengths kind uncompressed payload = do
  reject (not (kind == raw_block || kind == lz4_block)) unknown_block_kind
  reject
      (not (leb 1 uncompressed && leb uncompressed max_uncompressed_block_bytes)
        || not (leb 1 payload && leb payload max_compressed_block_bytes))
      length_limit
  reject (kind == raw_block && not (payload == uncompressed)) raw_lengths_differ
  reject
      (kind == lz4_block
        && (leb uncompressed payload || ltb (payload * max_expansion_ratio) uncompressed))
      savings_or_ratio_limit

-- `lz4_flex::block::compress` and `decompress`, the second with the size that its caller expects.
-- A compressed block decompresses to its input, and the LZ4 block format expands at most 256 times.
pub record Lz4 : Type 0 where
  pub compress : Bytes → Bytes
  pub decompress : Bytes → ℕ → Option Bytes
  pub decompress-compress : (b : Bytes) → decompress (compress b) (length b) ≡ some b
  pub compress_ratio : (b : Bytes) → length b ≤ length (compress b) * 256
