-- ===== src/Maze.antt =====
-- Chunk generation: internal/maze.
pub mod Draw
pub mod Graph
pub mod Edges
pub mod Carve
pub mod Params
pub mod Islands
pub mod Seed
pub mod Portal
pub mod Map
pub mod Generate
mod Tests
