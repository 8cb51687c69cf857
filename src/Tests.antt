-- ===== src/Tests.antt =====
-- Concrete inputs: every theorem with hypotheses at an input that meets them, and runs of the code.
mod Edge
mod Compression
mod Role
mod RoleConfig
mod Copy
mod Admission
mod Server
mod Storage
mod Migrate
mod Rest
