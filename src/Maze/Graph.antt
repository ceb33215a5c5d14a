-- ===== src/Maze/Graph.antt =====
-- The cell graph of a chunk: internal/maze/chunkgraph.go.
pub mod Faces
use lab_game.Prelude.{ℕ, suc, Bool, leb, if◌then◌else◌, List, [], ◌∷◌, Option, none, some, length}
use lab_game.Prelude.Int.{eqb_ℤ}
use lab_game.Hexgrid.Coord.{Coord, Direction, six_directions, neighbor, distance, origin, coord_eq}
use lab_game.Hexgrid.Lattice.{Lattice, local_cells}
use lab_game.Maze.Draw.{Draws, ◌>>=◌, ret, load}

-- The map from a coordinate to its index is a search in the list of the cells, which holds none twice.
pub record ChunkGraph : Type 0 where
  pub lattice : Lattice
  pub cells : List Coord

unfoldable pub new_chunk_graph : Lattice → ChunkGraph
new_chunk_graph l = record { lattice = l; cells = local_cells l }

abbrev pub cell_count : ChunkGraph → ℕ
cell_count g = length g.cells

unfoldable pub index_from : List Coord → ℕ → Coord → Option ℕ
index_from [] i c = none
index_from (x ∷ xs) i c = if coord_eq c x then some i else index_from xs (suc i) c

-- g.index[c], with its second result.
unfoldable pub index : ChunkGraph → Coord → Option ℕ
unfolding index_from
index g c = index_from g.cells 0 c

-- The zero value on a missing key.
unfoldable pub local_index : ChunkGraph → Coord → ℕ
unfolding index
local_index g c = elim (index g c) [ some i ↦ i | none ↦ 0 ]

unfoldable pub local_coord : ChunkGraph → ℕ → Draws Coord
unfolding load
local_coord g idx = load g.cells idx

unfoldable pub is_border_cell : ChunkGraph → ℕ → Draws Bool
is_border_cell g idx = do c ← load g.cells idx; ret (eqb_ℤ (distance c origin) g.lattice.radius)

unfoldable pub inside : ChunkGraph → Coord → List Direction → List ℕ
unfolding index
inside g local [] = []
inside g local (d ∷ ds) = elim (index g (neighbor local d)) [
  | some j ↦ j ∷ inside g local ds
  | none ↦ inside g local ds
]

unfoldable pub neighbors : ChunkGraph → ℕ → Draws (List ℕ)
unfolding inside load
neighbors g idx = do local ← load g.cells idx; ret (inside g local six_directions)

pub record InteriorFace : Type 0 where
  pub a : ℕ
  pub b : ℕ
  pub dir : Direction

-- One round of the inner loop of interiorFaces: a face is kept from the lower of its two indices.
unfoldable pub keep_face : ℕ → Direction → Option ℕ → List InteriorFace → List InteriorFace
keep_face idx d none rest = rest
keep_face idx d (some j) rest =
    if leb j idx then rest else record { a = idx; b = j; dir = d } ∷ rest

-- The inner loop, before the faces of the later cells.
unfoldable pub faces_of :
    ChunkGraph → ℕ → Coord → List Direction → List InteriorFace → List InteriorFace
unfolding index keep_face
faces_of g idx local [] rest = rest
faces_of g idx local (d ∷ ds) rest =
    keep_face idx d (index g (neighbor local d)) (faces_of g idx local ds rest)

unfoldable pub faces_from : ChunkGraph → ℕ → List Coord → List InteriorFace
unfolding faces_of
faces_from g idx [] = []
faces_from g idx (local ∷ cells) =
    let rest = faces_from g (suc idx) cells in faces_of g idx local six_directions rest

unfoldable pub interior_faces : ChunkGraph → List InteriorFace
unfolding faces_from
interior_faces g = faces_from g 0 g.cells
