-- ===== src/Gate.antt =====
-- Gate placement and gate depth over the chunk super-lattice: internal/gate.
pub mod Spiral
pub mod Next
pub mod Depth
mod Tests
