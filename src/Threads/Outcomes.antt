-- ===== src/Threads/Outcomes.antt =====
-- What the calls of kernel-core/src/threads.rs promise to their callers.
pub mod Exits
pub mod Created
pub mod Processes
mod Tests
pub mod Blocks
