-- ===== src/Maze/Carve/GrowingTree.antt =====
-- buildGrowingTree of internal/maze/algorithms.go.
use lab_game.Prelude.{
  ℕ, zero, suc, ◌+◌, ◌-◌, ◌*◌, not, if◌then◌else◌, List, [], ◌∷◌, ◌++◌, filter, has, length,
}
use lab_game.Maze.Draw.{Stream, Draws, ◌>>=◌, ret, cut_off, pick, load, bounded_draw, biased_newest}
use lab_game.Maze.Graph.{ChunkGraph, cell_count}
use lab_game.Maze.Edges.{EdgeSet, add, non_island_cells, non_island_neighbors}
use lab_game.Maze.Carve.FrontierPrim.{remove_at}

-- The index that a step takes from the active list.
unfoldable pub choose : Stream → ℕ → List ℕ → Draws ℕ
choose s bias_thresh active = do
  newest ← biased_newest s bias_thresh
  if newest then ret (length active - 1) else bounded_draw s (length active)

-- The loop over the active list: each iteration visits a cell or drops an entry.
unfoldable pub grow_active :
    ChunkGraph → List ℕ → Stream → ℕ → ℕ → List ℕ → List ℕ → EdgeSet → Draws EdgeSet
unfolding remove_at choose
grow_active g islands s bias_thresh fuel visited [] opened = ret opened
grow_active g islands s bias_thresh zero visited (a ∷ as') opened = cut_off
grow_active g islands s bias_thresh (suc fuel) visited (a ∷ as') opened = do
  idx ← choose s bias_thresh (a ∷ as')
  cell ← load (a ∷ as') idx
  ns ← non_island_neighbors g islands cell
  elim (filter (λ n. not (has visited n)) ns) [
    | [] ↦ remove_at (a ∷ as') idx >>= λ active.
        grow_active g islands s bias_thresh fuel visited active opened
    | u ∷ us ↦ pick s (u ∷ us) >>= λ next.
        grow_active g islands s bias_thresh fuel (next ∷ visited) ((a ∷ as') ++ next ∷ [])
          (add opened cell next)
  ]

unfoldable pub build_growing_tree : ChunkGraph → List ℕ → Stream → ℕ → Draws EdgeSet
unfolding grow_active
build_growing_tree g islands s bias_thresh = elim (non_island_cells g islands) [
  | [] ↦ ret []
  | c ∷ cs ↦ pick s (c ∷ cs) >>= λ start.
      grow_active g islands s bias_thresh (2 * cell_count g + 1) (start ∷ []) (start ∷ []) []
]
