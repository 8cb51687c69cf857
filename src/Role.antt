-- ===== src/Role.antt =====
-- Immutable roles and grants, and the role state of a session (crates/quackgis-server/src/role.rs).
pub mod Model
pub mod Worklist
pub mod Catalog
pub mod Session
pub mod Config
