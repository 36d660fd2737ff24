-- ===== src/Deploy.antt =====
-- src/deploy.rs: the driver's side of a deploy.
pub mod Progress
pub mod Messages
pub mod Packs
pub mod Connection
pub mod Lock
pub mod Run
pub mod Explain
