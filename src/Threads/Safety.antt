-- ===== src/Threads/Safety.antt =====
-- The scheduler of kernel-core/src/threads.rs loses no thread and runs none twice.
pub mod Occurrences
pub mod Invariant
pub mod Takes
pub mod Keeps
pub mod Schedule
pub mod Suspends
pub mod Starts
pub mod Boots
pub mod Calls
pub mod Changes
pub mod Runs
pub mod Rotation
mod Tests
