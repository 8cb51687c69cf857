-- ===== src/Admission.antt =====
-- Operation admission: crates/quackgis-server/src/execution_control.rs.
pub mod Classes
pub mod Controller
pub mod Pool
pub mod Registry
