-- ===== src/Checkout.antt =====
-- src/checkout.rs: what the agent does to the file system.
pub mod Disk
pub mod Apps
pub mod Gc
pub mod Links
pub mod ConfigLinks
