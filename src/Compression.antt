-- ===== src/Compression.antt =====
-- Compression blocks of the edge's streams (crates/quackgis-edge/src/compression.rs).
pub mod Format
pub mod Metrics
pub mod Encoder
pub mod Decoder
pub mod RoundTrip
