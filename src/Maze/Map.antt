-- ===== src/Maze/Map.antt =====
-- Generated chunks and their reconstruction: internal/maze/map.go, FaceState of algorithm.go.
use lab_game.Prelude.{
  ℕ, zero, suc, ◌+◌, ◌-◌, ◌*◌, ◌/◌, ◌%◌, Bool, true, false, not, ◌&&◌, ◌||◌, ◌==◌, ltb,
  if◌then◌else◌, List, [], ◌∷◌, Option, none, some, length, get_elem?,
}
use lab_game.Prelude.Int.{ℤ, pos, ltb_ℤ}
use lab_game.Hexgrid.Coord.{Coord, Chunk, Direction, index_of, opposite}
use lab_game.Maze.Graph.{ChunkGraph, InteriorFace, new_chunk_graph, index, interior_faces}
use lab_game.Maze.Islands.{ChunkType, is_valid_type}
use lab_game.Maze.Params.{min_radius}

-- The two states of a face, and any other value of the type.
pub data FaceState : Type 0 where
  face_wall face_passage face_other : FaceState

abbrev pub is_passage : FaceState → Bool
is_passage face_passage = true
is_passage _ = false

abbrev pub is_known : FaceState → Bool
is_known face_other = false
is_known _ = true

abbrev pub state_eq : FaceState → FaceState → Bool
state_eq face_wall face_wall = true
state_eq face_passage face_passage = true
state_eq face_other face_other = true
state_eq _ _ = false

-- A cell's six states are a list in canonical direction order.
abbrev pub CellFaces : Type 0
CellFaces = List FaceState

abbrev pub version : ℤ
version = pos 1

pub record Map : Type 0 where
  pub chunk : Chunk
  pub typ : ChunkType
  pub generation : ℤ
  pub graph : ChunkGraph
  pub faces : List CellFaces

abbrev pub map_radius : Map → ℤ
map_radius m = m.graph.lattice.radius

-- Faces, with `none` for its second result false.
unfoldable pub map_faces : Map → Coord → Option CellFaces
unfolding index
map_faces m local = elim (index m.graph local) [ some idx ↦ get_elem? m.faces idx | none ↦ none ]

-- The loop of isqrt. Its x falls at each iteration, so that its start bounds their number.
unfoldable pub isqrt_loop : ℕ → ℕ → ℕ → ℕ → Option ℕ
isqrt_loop n zero x y = if ltb y x then none else some x
isqrt_loop n (suc fuel) x y =
    let rest = isqrt_loop n fuel y ((y + n / y) / 2) in if ltb y x then rest else some x

unfoldable pub isqrt : ℕ → Option ℕ
unfolding isqrt_loop
isqrt n = if ltb n 2 then some n else isqrt_loop n n n ((n + 1) / 2)

-- The second result of radiusForCellCount is `some`. The bound of n keeps 12n within int64.
unfoldable pub radius_of_root : ℕ → ℕ → Option ℕ
radius_of_root disc s =
    if not (s * s == disc)
    then none
    else (if ltb s 3 || not ((s - 3) % 6 == 0)
        then none
        else (if ltb 2147483647 ((s - 3) / 6) then none else some ((s - 3) / 6)))

unfoldable pub radius_for_cell_count : ℕ → Option ℕ
unfolding isqrt radius_of_root
radius_for_cell_count n =
    if ltb (12 * n) 3
    then none
    else elim (isqrt (12 * n - 3)) [ none ↦ none | some s ↦ radius_of_root (12 * n - 3) s ]

-- The errors of NewMap, in the order of its checks.
pub data MapError : Type 0 where
  unknown_type low_version not_a_hexagon bad_face_state face_disagrees : MapError

abbrev pub all_known : List CellFaces → Bool
all_known [] = true
all_known (c ∷ cs) = known c && all_known cs
  where
    known : CellFaces → Bool
    known [] = true
    known (f ∷ fs) = is_known f && known fs

abbrev pub state_at : List CellFaces → ℕ → Direction → Option FaceState
state_at faces idx d = elim (get_elem? faces idx) [
  | none ↦ none
  | some c ↦ get_elem? c (index_of d)
]

abbrev agree : Option FaceState → Option FaceState → Bool
agree (some a) (some b) = state_eq a b
agree _ _ = false

-- The two cells of every interior face agree on it.
unfoldable pub all_agree : List CellFaces → List InteriorFace → Bool
all_agree faces [] = true
all_agree faces (f ∷ fs) =
    agree (state_at faces f.a f.dir) (state_at faces f.b (opposite f.dir)) && all_agree faces fs

pub data Rebuilt : Type 0 where
  rebuilt : Map → Rebuilt
  refused : MapError → Rebuilt

unfoldable pub check_faces : Chunk → ChunkType → ℤ → List CellFaces → ChunkGraph → Rebuilt
unfolding all_agree
check_faces ch typ v faces g =
    if not (all_known faces)
    then refused bad_face_state
    else (if not (all_agree faces (interior_faces g))
        then refused face_disagrees
        else rebuilt (record { chunk = ch; typ = typ; generation = v; graph = g; faces = faces }))

unfoldable pub new_map : Chunk → ChunkType → ℤ → List CellFaces → Rebuilt
unfolding check_faces radius_for_cell_count
new_map ch typ v faces =
    let sized : Rebuilt = elim (radius_for_cell_count (length faces)) [
      | none ↦ refused not_a_hexagon
      | some r ↦
          if ltb_ℤ (pos r) min_radius
          then refused not_a_hexagon
          else check_faces ch typ v faces (new_chunk_graph (record { radius = pos r }))
    ] in
    if not (is_valid_type typ)
    then refused unknown_type
    else (if ltb_ℤ v (pos 1) then refused low_version else sized)
