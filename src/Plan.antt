-- ===== src/Plan.antt =====
-- src/plan.rs: what a deploy changes, from the trees of two commits.
pub mod Changes
pub mod Diff
pub mod Apps
pub mod Units
pub mod Symlinks
pub mod Filter
pub mod Make
pub mod Safety
pub mod Subject
