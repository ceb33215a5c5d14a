-- ===== src/Maze/Carve/FrontierPrim.antt =====
-- buildFrontierPrim of internal/maze/algorithms.go.
use lab_game.Prelude.{
  ℕ, zero, suc, ◌-◌, not, ◌&&◌, if◌then◌else◌, List, [], ◌∷◌, ◌++◌, filter, has, length, take, set,
}
use lab_game.Maze.Draw.{Stream, Draws, ◌>>=◌, ret, cut_off, pick, load, bounded_draw}
use lab_game.Maze.Graph.{ChunkGraph, cell_count}
use lab_game.Maze.Edges.{EdgeSet, add, non_island_cells, non_island_neighbors}

-- xs[i] = xs[len(xs)-1]; xs = xs[:len(xs)-1]
unfoldable pub remove_at : List ℕ → ℕ → Draws (List ℕ)
remove_at xs i = do last ← load xs (length xs - 1); ret (take (length xs - 1) (set xs i last))

-- The loop of addFrontier. The frontier and the set of its cells hold the same cells.
unfoldable pub extend : List ℕ → List ℕ → List ℕ → List ℕ
extend in_tree [] frontier = frontier
extend in_tree (n ∷ ns) frontier =
    extend in_tree ns
      (if not (has in_tree n) && not (has frontier n) then frontier ++ n ∷ [] else frontier)

-- The loop over the frontier. Each iteration puts a cell into the tree.
unfoldable pub grow : ChunkGraph → List ℕ → Stream → ℕ → List ℕ → List ℕ → EdgeSet → Draws EdgeSet
unfolding remove_at extend
grow g islands s fuel in_tree [] opened = ret opened
grow g islands s zero in_tree (f ∷ fs) opened = cut_off
grow g islands s (suc fuel) in_tree (f ∷ fs) opened = do
  i ← bounded_draw s (length (f ∷ fs))
  cell ← load (f ∷ fs) i
  frontier ← remove_at (f ∷ fs) i
  ns ← non_island_neighbors g islands cell
  partner ← pick s (filter (has in_tree) ns)
  grow g islands s fuel (cell ∷ in_tree) (extend (cell ∷ in_tree) ns frontier)
      (add opened cell partner)

unfoldable pub build_frontier_prim : ChunkGraph → List ℕ → Stream → Draws EdgeSet
unfolding grow extend
build_frontier_prim g islands s = elim (non_island_cells g islands) [
  | [] ↦ ret []
  | c ∷ cs ↦ pick s (c ∷ cs) >>= λ start. non_island_neighbors g islands start >>= λ ns.
      grow g islands s (cell_count g) (start ∷ []) (extend (start ∷ []) ns []) []
]
