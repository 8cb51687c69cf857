-- ===== src/Migrate.antt =====
-- The migration of a PostgreSQL database (crates/quackgis-migrate/src).
pub mod Config
pub mod Inventory
pub mod Plan
pub mod Checksum
