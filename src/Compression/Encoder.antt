-- ===== src/Compression/Encoder.antt =====
-- The sending half of a stream: `copy_unframed` and `copy_compressed` of
-- crates/quackgis-edge/src/compression.rs. A reader is the sequence of what its reads return; the
-- writer takes every write, and is the bytes written so far. `elapsed` is the time in nanoseconds
-- that the work on a block takes.
pub mod Adaptive
pub mod Counters
use quackgis.Base.{
  ℕ, ◌+◌, ◌-◌, ◌*◌, ◌≤◌, ◌<◌, Bool, true, false, ◌&&◌, List, [], ◌∷◌, ◌++◌, ltb, leb, if◌then◌else◌,
  Bytes, Result, ok, err, length, wrapping_add, saturating_add,
}
use quackgis.Compression.Format.{
  min_compression_input_bytes, min_compression_savings_bytes, min_compression_savings_percent,
  incompressible_probes_before_backoff, incompressible_backoff_blocks, block_header_bytes,
  raw_block, lz4_block, IoError, read_failed, to_be_bytes, Lz4, max_uncompressed_block_bytes,
}
use quackgis.Compression.Metrics.{
  BlockClassification, compressed, raw_small, raw_incompressible, raw_backoff, DirectionMetrics,
  record_block,
}

-- The reads of a stream: blocks of bytes until the end of the file (a read of no bytes) or an error.
pub data Reads : Type 0 where
  eof failed : Reads
  read : Bytes → Reads → Reads

-- What a reader with a 64 KiB buffer returns.
abbrev pub IsReads : Reads → Type 0
IsReads eof = Unit {0}
IsReads failed = Unit {0}
IsReads (read input rest) =
    (1 ≤ length input) × (length input ≤ max_uncompressed_block_bytes) × IsReads rest

abbrev pub contents : Reads → Bytes
contents eof = []
contents failed = []
contents (read input rest) = input ++ contents rest

-- How a copy ends: the counters, the bytes written, and the total or the error.
pub record Copied : Type 0 where
  pub metrics : DirectionMetrics
  pub written : Bytes
  pub result : Result IoError ℕ

abbrev stop : DirectionMetrics → Result IoError ℕ → Copied
stop metrics result = record { metrics = metrics; written = []; result = result }

-- A write in front of what is written later.
abbrev pub write_all : Bytes → Copied → Copied
write_all bytes c = record c { written = bytes ++ c.written }

-- `copy_unframed`
unfoldable pub copy_unframed : ℕ → DirectionMetrics → Reads → Copied
copy_unframed total m eof = stop m (ok total)
copy_unframed total m failed = stop m (err read_failed)
copy_unframed total m (read input rest) = write_all input (
    copy_unframed (saturating_add total (length input))
      (record_block m (length input) (length input) raw_incompressible) rest)

pub record Backoff : Type 0 where
  pub incompressible_probes : ℕ
  pub backoff_blocks : ℕ

pub record Block : Type 0 where
  pub kind : ℕ
  pub payload : Bytes
  pub classification : BlockClassification

abbrev raw : Bytes → BlockClassification → Block
raw input classification = record {
  kind = raw_block;
  payload = input;
  classification = classification;
}

-- `saves_enough` of a block and its compressed form
unfoldable pub saves_enough : ℕ → ℕ → Bool
saves_enough read_bytes compressed_bytes =
    let saved = read_bytes - compressed_bytes in
    leb min_compression_savings_bytes saved
    && leb (read_bytes * min_compression_savings_percent) (saved * 100)

-- the counts after a probe that did not pay
abbrev after_incompressible : Backoff → Backoff
after_incompressible b =
    let probes = b.incompressible_probes + 1 in
    if leb incompressible_probes_before_backoff probes
    then record { incompressible_probes = 0; backoff_blocks = incompressible_backoff_blocks }
    else record b { incompressible_probes = probes }

module _ (lz4 : Lz4) (elapsed : Bytes → ℕ) where
  -- the branch that tries LZ4
  probe : Backoff → DirectionMetrics → Bytes → Backoff × DirectionMetrics × Block
  probe b m input =
      let payload = lz4.compress input in
      let m' = record m {
        compression_cpu_nanos = wrapping_add m.compression_cpu_nanos (elapsed input);
      } in
      if saves_enough (length input) (length payload)
      then (
        record b { incompressible_probes = 0 },
        m',
        record { kind = lz4_block; payload = payload; classification = compressed },
      )
      else (after_incompressible b, m', raw input raw_incompressible)

  -- the choice of `copy_compressed` for one block
  unfoldable pub encode_block :
      Backoff → DirectionMetrics → Bytes → Backoff × DirectionMetrics × Block
  unfolding probe
  encode_block b m input =
      if ltb (length input) min_compression_input_bytes
      then (b, m, raw input raw_small)
      else if ltb 0 b.backoff_blocks
      then (record b { backoff_blocks = b.backoff_blocks - 1 }, m, raw input raw_backoff)
      else probe b m input

  -- kind, the two lengths, and the payload
  unfoldable pub frame : Bytes → Block → Bytes
  frame input block =
      block.kind
      ∷ (to_be_bytes (length input) ++ (to_be_bytes (length block.payload) ++ block.payload))

  unfoldable pub compress_loop : Backoff → ℕ → DirectionMetrics → Reads → Copied
  compress_loop b total m eof = stop m (ok total)
  compress_loop b total m failed = stop m (err read_failed)
  compress_loop b total m (read input rest) =
      let (b', m', block) = encode_block b m input in
      write_all (frame input block) (
        compress_loop b' (saturating_add total (length input))
          (record_block m' (length input) (block_header_bytes + length block.payload)
            block.classification)
          rest)

  -- `copy_compressed`
  unfoldable pub copy_compressed : DirectionMetrics → Reads → Copied
  copy_compressed m reads =
      compress_loop (record { incompressible_probes = 0; backoff_blocks = 0 }) 0 m reads
