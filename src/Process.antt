-- ===== src/Process.antt =====
-- src/process.rs: the worker process as the master sees it.
pub mod Error
pub mod Start
pub mod Actor
pub mod Deadlines
pub mod Descriptors
pub mod Heartbeat
pub mod Loaded
