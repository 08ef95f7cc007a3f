-- ===== src/User/Proofs.antt =====
-- What the calls of kernel-core/src/user.rs keep, and what they do to files.
pub mod Invariant
pub mod Opens
pub mod Calls
pub mod Growth
pub mod Runs
pub mod Results
pub mod Refused
