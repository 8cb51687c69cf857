-- ===== src/Rest.antt =====
-- The REST gateway (crates/quackgis-rest/src/main.rs): its settings, the tokens of its clients, and its
-- cache of schemas.
pub mod Settings
pub mod Jwt
pub mod Cache
