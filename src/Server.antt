-- ===== src/Server.antt =====
-- The lifecycle, the accounts and the audit labels of the server (crates/quackgis-server/src).
pub mod Lifecycle
pub mod Text
pub mod Auth
pub mod Audit
