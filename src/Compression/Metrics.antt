-- ===== src/Compression/Metrics.antt =====
-- The payload-free counters of crates/quackgis-edge/src/compression.rs. A counter is an AtomicU64:
-- `fetch_add` wraps. Each stream updates them one at a time, so a record is a state of them.
use quackgis.Base.{ℕ, ltb, if◌then◌else◌, wrapping_add}
use quackgis.Edge.Protocol.{ApplicationProtocol, pgwire, cancellation, http}
use quackgis.Compression.Format.{min_compression_input_bytes}

pub data Direction : Type 0 where
  upstream downstream : Direction

pub data BlockClassification : Type 0 where
  compressed raw_small raw_incompressible raw_backoff : BlockClassification

pub record DirectionMetrics : Type 0 where
  pub uncompressed_bytes : ℕ
  pub wire_bytes : ℕ
  pub latency_sensitive_bytes : ℕ
  pub blocks : ℕ
  pub compressed_blocks : ℕ
  pub raw_small_blocks : ℕ
  pub raw_incompressible_blocks : ℕ
  pub raw_backoff_blocks : ℕ
  pub compression_cpu_nanos : ℕ
  pub decompression_cpu_nanos : ℕ
  pub decode_failures : ℕ

pub record TransportMetrics : Type 0 where
  pub upstream_metrics : DirectionMetrics
  pub downstream_metrics : DirectionMetrics
  pub pgwire_streams : ℕ
  pub cancellation_streams : ℕ

unfoldable pub record_stream : TransportMetrics → ApplicationProtocol → TransportMetrics
record_stream m pgwire = record m { pgwire_streams = wrapping_add m.pgwire_streams 1 }
record_stream m cancellation = record m {
  cancellation_streams = wrapping_add m.cancellation_streams 1;
}
record_stream m http = m

count_class : DirectionMetrics → BlockClassification → DirectionMetrics
count_class m compressed = record m { compressed_blocks = wrapping_add m.compressed_blocks 1 }
count_class m raw_small = record m { raw_small_blocks = wrapping_add m.raw_small_blocks 1 }
count_class m raw_incompressible = record m {
  raw_incompressible_blocks = wrapping_add m.raw_incompressible_blocks 1;
}
count_class m raw_backoff = record m { raw_backoff_blocks = wrapping_add m.raw_backoff_blocks 1 }

unfoldable pub record_block : DirectionMetrics → ℕ → ℕ → BlockClassification → DirectionMetrics
unfolding count_class
record_block m uncompressed wire classification =
    count_class
      (record m {
        uncompressed_bytes = wrapping_add m.uncompressed_bytes uncompressed;
        wire_bytes = wrapping_add m.wire_bytes wire;
        blocks = wrapping_add m.blocks 1;
      })
      classification

unfoldable pub record_latency_sensitive : TransportMetrics → Direction → ℕ → TransportMetrics
record_latency_sensitive m upstream bytes = record m {
  upstream_metrics = record (m.upstream_metrics) {
    latency_sensitive_bytes = wrapping_add m.upstream_metrics.latency_sensitive_bytes bytes;
  };
}
record_latency_sensitive m downstream bytes = record m {
  downstream_metrics = record (m.downstream_metrics) {
    latency_sensitive_bytes = wrapping_add m.downstream_metrics.latency_sensitive_bytes bytes;
  };
}

unfoldable pub classify_raw : ℕ → BlockClassification
classify_raw n = if ltb n min_compression_input_bytes then raw_small else raw_incompressible
