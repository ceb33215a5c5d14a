-- ===== src/Maze/Carve/Kruskal.antt =====
-- buildKruskal of internal/maze/algorithms.go.
pub mod Labels
pub mod Forest
use lab_game.Prelude.{ℕ, ◌==◌, if◌then◌else◌, List, [], ◌∷◌, map, numbers}
use lab_game.Maze.Draw.{Stream, Draws, ◌>>=◌, ret, load, shuffle}
use lab_game.Maze.Graph.{ChunkGraph, InteriorFace, cell_count}
use lab_game.Maze.Edges.{EdgeSet, add, non_island_interior_faces}

unfoldable pub relabel : ℕ → ℕ → List ℕ → List ℕ
relabel old replacement label = map (λ l. if l == old then replacement else l) label

-- The loop over the shuffled faces.
unfoldable pub join_faces : List InteriorFace → List ℕ → EdgeSet → Draws EdgeSet
unfolding relabel
join_faces [] label opened = ret opened
join_faces (f ∷ fs) label opened = do
  la ← load label f.a
  lb ← load label f.b
  let skipped = join_faces fs label opened
  let joined = join_faces fs (relabel la lb label) (add opened f.a f.b)
  if la == lb then skipped else joined

unfoldable pub build_kruskal : ChunkGraph → List ℕ → Stream → Draws EdgeSet
unfolding join_faces shuffle
build_kruskal g islands s = do
  faces ← shuffle s (non_island_interior_faces g islands)
  join_faces faces (numbers 0 (cell_count g)) []
