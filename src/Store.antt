-- ===== src/Store.antt =====
-- src/store.rs: the configuration store, a bare Git repository.
pub mod Repository
pub mod Refs
pub mod Trees
pub mod Desired
pub mod Validate
pub mod Frontier
pub mod Build
