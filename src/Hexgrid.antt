-- ===== src/Hexgrid.antt =====
-- The axial hex grid: internal/hexgrid.
pub mod Coord
pub mod Face
pub mod Lattice
mod Tests
