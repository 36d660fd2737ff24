-- ===== src/Tests.antt =====
-- Concrete repositories, and the theorems at concrete inputs.
pub mod MemoryRepository
pub mod Planning
pub mod Diffs
pub mod JournalFiles
pub mod Sessions
pub mod Deploys
pub mod LinkFiles
pub mod Numbers
pub mod Links
pub mod Machine
pub mod Activations
pub mod Trees
