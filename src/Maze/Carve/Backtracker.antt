-- ===== src/Maze/Carve/Backtracker.antt =====
-- buildBacktracker of internal/maze/algorithms.go.
use lab_game.Prelude.{ℕ, zero, suc, ◌+◌, ◌*◌, not, List, [], ◌∷◌, filter, has}
use lab_game.Maze.Draw.{Stream, Draws, ◌>>=◌, ret, cut_off, pick}
use lab_game.Maze.Graph.{ChunkGraph, cell_count}
use lab_game.Maze.Edges.{EdgeSet, add, non_island_cells, non_island_neighbors}

-- The loop over the stack, whose top is the head of the list. Each iteration pushes an unvisited cell or
-- pops a cell: two for each cell of the chunk are enough.
unfoldable pub backtrack :
    ChunkGraph → List ℕ → Stream → ℕ → List ℕ → List ℕ → EdgeSet → Draws EdgeSet
backtrack g islands s fuel visited [] opened = ret opened
backtrack g islands s zero visited (cur ∷ stack) opened = cut_off
backtrack g islands s (suc fuel) visited (cur ∷ stack) opened = do
  ns ← non_island_neighbors g islands cur
  elim (filter (λ n. not (has visited n)) ns) [
    | [] ↦ backtrack g islands s fuel visited stack opened
    | u ∷ us ↦ pick s (u ∷ us) >>= λ next.
        backtrack g islands s fuel (next ∷ visited) (next ∷ cur ∷ stack) (add opened cur next)
  ]

unfoldable pub build_backtracker : ChunkGraph → List ℕ → Stream → Draws EdgeSet
unfolding backtrack
build_backtracker g islands s = elim (non_island_cells g islands) [
  | [] ↦ ret []
  | c ∷ cs ↦ pick s (c ∷ cs) >>= λ start.
      backtrack g islands s (2 * cell_count g + 1) (start ∷ []) (start ∷ []) []
]
