-- ===== src/Upper.antt =====
-- internal/upper: the overlay state.
pub mod Extents
pub mod Path
pub mod State
pub mod Query
pub mod Check
pub mod Subtree
pub mod Apply
pub mod Serialize
