-- ===== src/Threads.antt =====
-- kernel-core/src/threads.rs: threads, processes and the scheduler. The statics are one record,
-- `Threads.State.Kernel`; each function takes it and hands it back.
pub mod State
pub mod Queue
pub mod Switch
pub mod Spawn
pub mod Process
pub mod Join
pub mod Context
pub mod Safety
pub mod Outcomes
