-- ===== src/Tests.antt =====
-- The theorems at concrete inputs.
pub mod Memory
mod Maps
mod Overlay
pub mod Sessions
pub mod Leases
mod Worlds
mod Files
mod Moves
mod Objects
pub mod Kafka
mod Mounts
mod Whole
mod Settings
