-- ===== src/Edge.antt =====
-- The authenticated transport contract of the edge (crates/quackgis-edge/src/lib.rs).
pub mod Protocol
pub mod Codec
pub mod Iroh
pub mod Messages
pub mod Lease
pub mod Negotiation
pub mod Handshake
