-- ===== src/Maze/Edges.antt =====
-- Open interior faces, and the cells and faces that no island touches: internal/maze/algorithms.go.
-- A Go map that is used as a set is the list of its keys.
pub mod Linked
use lab_game.Prelude.{
  ℕ, Bool, false, not, ◌&&◌, ◌||◌, ltb, ◌==◌, if◌then◌else◌, List, [], ◌∷◌, filter, numbers, has,
}
use lab_game.Maze.Draw.{Draws, ◌>>=◌, ret}
use lab_game.Maze.Graph.{ChunkGraph, InteriorFace, cell_count, neighbors, interior_faces}

abbrev pub EdgeKey : Type 0
EdgeKey = ℕ × ℕ

unfoldable pub new_edge_key : ℕ → ℕ → EdgeKey
new_edge_key a b = if ltb b a then (b, a) else (a, b)

abbrev pub EdgeSet : Type 0
EdgeSet = List EdgeKey

unfoldable pub add : EdgeSet → ℕ → ℕ → EdgeSet
unfolding new_edge_key
add e a b = new_edge_key a b ∷ e

abbrev pub key_eq : EdgeKey → EdgeKey → Bool
key_eq x y = (x.0 == y.0) && (x.1 == y.1)

abbrev pub holds : EdgeSet → EdgeKey → Bool
holds [] k = false
holds (x ∷ xs) k = key_eq k x || holds xs k

unfoldable pub has_edge : EdgeSet → ℕ → ℕ → Bool
unfolding new_edge_key
has_edge e a b = holds e (new_edge_key a b)

unfoldable pub non_island_cells : ChunkGraph → List ℕ → List ℕ
non_island_cells g islands = filter (λ idx. not (has islands idx)) (numbers 0 (cell_count g))

unfoldable pub non_island_neighbors : ChunkGraph → List ℕ → ℕ → Draws (List ℕ)
unfolding neighbors
non_island_neighbors g islands idx = do
  all ← neighbors g idx
  ret (filter (λ n. not (has islands n)) all)

unfoldable pub non_island_interior_faces : ChunkGraph → List ℕ → List InteriorFace
unfolding interior_faces
non_island_interior_faces g islands =
    filter (λ (f : InteriorFace). not (has islands f.a) && not (has islands f.b)) (interior_faces g)
