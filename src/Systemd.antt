-- ===== src/Systemd.antt =====
-- src/main.rs: `SystemdActivator`, the activation on a real host.
pub mod Text
pub mod Units
pub mod Host
pub mod Poll
pub mod Activate
pub mod Quiet
pub mod Success
