-- ===== src/Copy.antt =====
-- COPY text decoding: crates/quackgis-server/src/pgwire_server/copy_text.rs.
pub mod Errors
pub mod Escapes
pub mod Values
pub mod Rows
pub mod Arrow
pub mod Columns
pub mod Batches
pub mod Decoder
pub mod Push
