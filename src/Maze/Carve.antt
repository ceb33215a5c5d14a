-- ===== src/Maze/Carve.antt =====
-- The choice of the spanning-structure algorithm: buildSpanningStructure of internal/maze/algorithms.go,
-- and internal/maze/algorithm.go.
pub mod Backtracker
pub mod Kruskal
pub mod FrontierPrim
pub mod GrowingTree
pub mod Wilson
use lab_game.Prelude.{ℕ, zero, suc, List}
use lab_game.Maze.Draw.{Stream, Draws, ◌>>=◌, ret, weighted_pick}
use lab_game.Maze.Graph.{ChunkGraph}
use lab_game.Maze.Edges.{EdgeSet}
use lab_game.Maze.Carve.Backtracker.{build_backtracker}
use lab_game.Maze.Carve.Kruskal.{build_kruskal}
use lab_game.Maze.Carve.FrontierPrim.{build_frontier_prim}
use lab_game.Maze.Carve.GrowingTree.{build_growing_tree}
use lab_game.Maze.Carve.Wilson.{build_wilson}

-- The five algorithms in canonical order, and any other value of the type.
pub data Algorithm : Type 0 where
  backtracker kruskal prim growing_tree wilson other : Algorithm

-- Algorithm(i)
unfoldable pub algorithm_at : ℕ → Algorithm
algorithm_at zero = backtracker
algorithm_at (suc zero) = kruskal
algorithm_at (suc (suc zero)) = prim
algorithm_at (suc (suc (suc zero))) = growing_tree
algorithm_at (suc (suc (suc (suc zero)))) = wilson
algorithm_at _ = other

unfoldable pub draw_algorithm : Stream → List ℕ → Draws Algorithm
unfolding algorithm_at weighted_pick
draw_algorithm s weights = do i ← weighted_pick s weights; ret (algorithm_at i)

unfoldable pub build_spanning_structure :
    ChunkGraph → List ℕ → Algorithm → Stream → ℕ → Draws EdgeSet
unfolding build_kruskal build_frontier_prim build_growing_tree build_wilson build_backtracker
build_spanning_structure g islands kruskal s bias_thresh = build_kruskal g islands s
build_spanning_structure g islands prim s bias_thresh = build_frontier_prim g islands s
build_spanning_structure g islands growing_tree s bias_thresh =
    build_growing_tree g islands s bias_thresh
build_spanning_structure g islands wilson s bias_thresh = build_wilson g islands s
build_spanning_structure g islands _ s bias_thresh = build_backtracker g islands s
