-- ===== src/Daemon.antt =====
-- internal/daemon: what a served mount acquires and releases, and the mounts of one session.
pub mod Lifecycle
pub mod Protocol
pub mod Runs
pub mod Kept
pub mod Ends
pub mod Writers
pub mod Calls
pub mod Holding
pub mod Sound
pub mod Exclusion
pub mod Race
