-- ===== src/Storage.antt =====
-- The storage sessions over DuckDB (crates/quackgis-server/src/duckdb_adbc_storage.rs).
pub mod Transaction
pub mod Borrowing
