-- ===== src/Agent.antt =====
-- src/agent.rs: the session of an agent, which serves the requests of one driver.
pub mod Session
pub mod Lock
pub mod Apply
pub mod Requests
pub mod Final
pub mod Forward
