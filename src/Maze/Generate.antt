-- ===== src/Maze/Generate.antt =====
-- The generation of a chunk: internal/maze/generate.go.
-- derivedBorders only stores the portals of a border, which depend on the seed, the two chunks and the shares:
-- here they are derived again.
pub mod Resolve
use lab_game.Prelude.{
  ℕ, suc, Bool, false, not, ◌&&◌, ◌||◌, ◌==◌, if◌then◌else◌, List, [], ◌∷◌, Option, none, some,
  get_elem?,
}
use lab_game.Prelude.Int.{ℤ, eqb_ℤ}
use lab_game.Hexgrid.Coord.{
  Coord, Chunk, Direction, index_of, opposite, neighbor, coord_eq, six_directions,
}
use lab_game.Hexgrid.Face.{Face, face_of}
use lab_game.Hexgrid.Lattice.{at, locate}
use lab_game.Maze.Draw.{ok, panic, Draws, ◌>>=◌, ret}
use lab_game.Maze.Graph.{ChunkGraph, new_chunk_graph, index}
use lab_game.Maze.Edges.{EdgeSet, has_edge}
use lab_game.Maze.Carve.{draw_algorithm, build_spanning_structure}
use lab_game.Maze.Params.{DecimalOps, Params, ParamsError, validate, bias_threshold, lattice_of}
use lab_game.Maze.Islands.{ChunkType, is_valid_type, select_islands, add_extra_passages}
use lab_game.Maze.Seed.{
  Crypto, purpose_island, purpose_algorithm, purpose_structure, purpose_cycle, chunk_key,
  border_key, cell_seed,
}
use lab_game.Maze.Portal.{border_candidates, select_portals}
use lab_game.Maze.Map.{
  Map, FaceState, face_wall, face_passage, is_passage, CellFaces, version, map_radius, map_faces,
}

pub record Generator (D : Type 0) : Type 0 where
  pub seed : ℤ
  pub params : Params D

pub data Made (D : Type 0) : Type 0 where
  made : Generator D → Made D
  rejected : ParamsError → Made D

unfoldable pub new : {D : Type 0} → DecimalOps D → ℤ → Params D → Made D
unfolding validate
new ops seed params = elim (validate ops params) [
  | some e ↦ rejected e
  | none ↦ made (record { seed = seed; params = params })
]

unfoldable pub generator_cell_seed : {D : Type 0} → Crypto → Generator D → Coord → ℕ
unfolding cell_seed
generator_cell_seed c gen cell = cell_seed c gen.seed cell

-- The errors of Generate; the last four name the neighbour map's fault.
pub data GenerateError : Type 0 where
  unknown_type map_for_itself wrong_radius not_adjacent same_chunk_twice : GenerateError

unfoldable pub is_adjacent : Chunk → Chunk → List Direction → Bool
is_adjacent ch nc [] = false
is_adjacent ch nc (d ∷ ds) = coord_eq (neighbor ch d) nc || is_adjacent ch nc ds

-- A lookup in the neighbour maps by their chunk.
unfoldable pub map_of : List Map → Chunk → Option Map
map_of [] ch = none
map_of (m ∷ ms) ch = if coord_eq m.chunk ch then some m else map_of ms ch

pub data Resolved : Type 0 where
  resolved : List Map → Resolved
  unresolved : GenerateError → Resolved

-- The loop of resolveNeighborMaps, with the maps accepted so far.
unfoldable pub resolve_from : Chunk → ℤ → List Map → List Map → Resolved
unfolding is_adjacent map_of
resolve_from ch radius [] out = resolved out
resolve_from ch radius (nm ∷ nms) out =
    let rest = resolve_from ch radius nms (nm ∷ out) in
    let taken : Resolved = elim (map_of out nm.chunk) [
      | some m ↦ unresolved same_chunk_twice
      | none ↦ rest
    ] in
    if coord_eq nm.chunk ch
    then unresolved map_for_itself
    else (if not (eqb_ℤ (map_radius nm) radius)
        then unresolved wrong_radius
        else (if not (is_adjacent ch nm.chunk six_directions)
            then unresolved not_adjacent
            else taken))

unfoldable pub resolve_neighbor_maps : Chunk → ℤ → List Map → Resolved
unfolding resolve_from
resolve_neighbor_maps ch radius neighbors = resolve_from ch radius neighbors []

abbrev pub face_eq : Face → Face → Bool
face_eq f g = coord_eq f.cell g.cell && (index_of f.dir == index_of g.dir)

abbrev pub has_face : List Face → Face → Bool
has_face [] f = false
has_face (g ∷ gs) f = face_eq f g || has_face gs f

abbrev pub state_of : Bool → FaceState
state_of passage = if passage then face_passage else face_wall

-- A computation on a stream of its own, from its first value on. The count of this stream does not matter to the rest.
abbrev pub on_new_stream : {A : Type 0} → Draws A → Draws A
on_new_stream m p = elim (m 0) [ ok a q ↦ ok a p | r ↦ r ]

pub data Generated : Type 0 where
  generated : Map → Generated
  refused : GenerateError → Generated

module _ {D : Type 0} (ops : DecimalOps D) (c : Crypto) (gen : Generator D) (ch : Chunk) where
  unfoldable pub border_portals : Chunk → Draws (List Face)
  unfolding border_candidates border_key select_portals
  border_portals other = on_new_stream (
      select_portals ops (border_candidates (lattice_of gen.params) ch other)
        (c.new_stream (border_key c gen.seed ch other)) gen.params.portal_share_lower
        gen.params.portal_share_upper)

  -- A face that leaves the chunk, of the cell at `cell`: from the neighbour's map, or by the portal rule.
  unfoldable pub border_state : List Map → Coord → Direction → Draws FaceState
  unfolding border_portals map_of map_faces face_of locate opposite
  border_state maps cell d =
      let place = locate (lattice_of gen.params) (neighbor cell d) in
      let by_rule : Draws FaceState =
        border_portals place.0 >>= λ portals. ret (state_of (has_face portals (face_of cell d))) in
      elim (map_of maps place.0) [
        | none ↦ by_rule
        | some nm ↦ elim (map_faces nm place.1) [
          | none ↦ by_rule
          | some n_faces ↦ elim (get_elem? n_faces (index_of (opposite d))) [
            | none ↦ λ p. panic
            | some state ↦ ret (state_of (is_passage state))
          ]
        ]
      ]

  unfoldable pub face_states :
      ChunkGraph → EdgeSet → List Map → ℕ → Coord → List Direction → Draws CellFaces
  unfolding border_state index has_edge at
  face_states g opened maps idx local [] = ret []
  face_states g opened maps idx local (d ∷ ds) = do
    state ← elim (index g (neighbor local d)) [
      | some j ↦ ret (state_of (has_edge opened idx j))
      | none ↦ border_state maps (at (lattice_of gen.params) ch local) d
    ]
    rest ← face_states g opened maps idx local ds
    ret (state ∷ rest)

  unfoldable pub all_faces :
      ChunkGraph → EdgeSet → List Map → ℕ → List Coord → Draws (List CellFaces)
  unfolding face_states
  all_faces g opened maps idx [] = ret []
  all_faces g opened maps idx (local ∷ cells) = do
    cell ← face_states g opened maps idx local six_directions
    rest ← all_faces g opened maps (suc idx) cells
    ret (cell ∷ rest)

  -- The passes, in their order.
  unfoldable pub build_map : ChunkType → List Map → Draws Map
  unfolding select_islands draw_algorithm build_spanning_structure bias_threshold add_extra_passages
      all_faces chunk_key
  build_map typ maps = do
    let g = new_chunk_graph (lattice_of gen.params)
    islands ← on_new_stream (
        select_islands ops g (c.new_stream (chunk_key c gen.seed purpose_island ch)) gen.params typ)
    algo ← on_new_stream (
        draw_algorithm (c.new_stream (chunk_key c gen.seed purpose_algorithm ch))
          gen.params.weights)
    tree ← on_new_stream (
        build_spanning_structure g islands algo
          (c.new_stream (chunk_key c gen.seed purpose_structure ch))
          (bias_threshold ops gen.params.growing_tree_bias))
    opened ← on_new_stream (
        add_extra_passages ops g islands tree (c.new_stream (chunk_key c gen.seed purpose_cycle ch))
          gen.params.extra_passage_share)
    faces ← all_faces g opened maps 0 g.cells
    ret (record { chunk = ch; typ = typ; generation = version; graph = g; faces = faces })

  unfoldable pub generate : ChunkType → List Map → Draws Generated
  unfolding build_map resolve_neighbor_maps
  generate typ neighbors =
      let go : Draws Generated = elim (resolve_neighbor_maps ch gen.params.radius neighbors) [
        | unresolved e ↦ ret (refused e)
        | resolved maps ↦ build_map typ maps >>= λ m. ret (generated m)
      ] in
      if not (is_valid_type typ) then ret (refused unknown_type) else go
