-- ===== src/Hexgrid/Tests.antt =====
-- The theorems of the grid at concrete inputs.
use lab_game.Prelude.{◌≡◌, refl, ◌≢◌, ◌↔◌, ◌*◌, ◌+◌, ◌≤◌, arith, none, length}
use lab_game.Prelude.Int.{pos, negsuc, ◌≤ℤ◌, ◌+ℤ◌, ◌-ℤ◌, ◌*ℤ◌, neg_ℤ, wrap32, wrap64}
use lab_game.Prelude.Members.{◌∈◌, Distinct}
use lab_game.Hexgrid.Coord.{Coord, dir_e, dir_se, neighbor, opposite, distance, origin, abs64}
use lab_game.Hexgrid.Coord.Steps.{neighbor-neighbor-opposite}
use lab_game.Hexgrid.Coord.Metric.{distance_triangle}
use lab_game.Hexgrid.Face.{face_of, face_of-neighbor}
use lab_game.Hexgrid.Lattice.{
  at, locate, local_cells, cell_count, search_candidates, center, candidate, floor_div64,
}
use lab_game.Hexgrid.Lattice.Corner.{lattice}
use lab_game.Hexgrid.Lattice.Cover.{cells}
use lab_game.Hexgrid.Lattice.Locate.{search_candidates-ne-none, at-locate, locate-at}
use lab_game.Hexgrid.Lattice.Cells.{mem-local_cells, local_cells-Distinct, length-local_cells}
use lab_game.Hexgrid.Lattice.Spread.{distance-center}

abbrev corner : Coord
corner = record { q = pos 2147483647; r = negsuc 2147483647 }

abbrev cell : Coord
cell = record { q = pos 9; r = negsuc 3 }

abbrev near_cell : Coord
near_cell = record { q = pos 10; r = negsuc 3 }

abbrev chunk : Coord
chunk = record { q = pos 1; r = negsuc 1 }

neighbor-neighbor-opposite_example : neighbor (neighbor corner dir_e) (opposite dir_e) ≡ corner
neighbor-neighbor-opposite_example =
    neighbor-neighbor-opposite corner dir_e (omega arith, omega arith)

distance_triangle_example : distance cell origin ≤ℤ distance cell chunk +ℤ distance chunk origin
distance_triangle_example = distance_triangle cell chunk origin

face_of-neighbor_example :
    face_of (neighbor corner dir_se) (opposite dir_se) ≡ face_of corner dir_se
face_of-neighbor_example = face_of-neighbor corner dir_se (omega arith, omega arith)

search_candidates-ne-none_example : search_candidates (lattice 6) cell ≢ none
search_candidates-ne-none_example =
    search_candidates-ne-none 6 cell (omega arith)
      ((omega arith, omega arith), (omega arith, omega arith))

at-locate_example :
    (at (lattice 6) (locate (lattice 6) cell).0 (locate (lattice 6) cell).1 ≡ cell)
    × (distance (locate (lattice 6) cell).1 origin ≤ℤ pos 6)
at-locate_example = at-locate 6 cell (omega arith) (omega arith, omega arith)

abbrev inner : Coord
inner = record { q = pos 2; r = pos 3 }

locate-at_example : locate (lattice 6) (at (lattice 6) chunk inner) ≡ (chunk, inner)
unfolding distance abs64 neg_ℤ ◌+ℤ◌ ◌-ℤ◌ ◌*ℤ◌
locate-at_example =
    locate-at 6 chunk inner (omega arith) (omega arith) (omega arith, omega arith)
      (omega arith, omega arith)

mem-local_cells_example : (cell ∈ local_cells (lattice 6)) ↔ (distance cell origin ≤ℤ pos 6)
mem-local_cells_example = mem-local_cells 6 cell (omega arith)

local_cells-Distinct_example : Distinct (local_cells (lattice 6))
local_cells-Distinct_example = local_cells-Distinct (lattice 6)

length-local_cells_example : pos (length (local_cells (lattice 6))) ≡ cell_count (lattice 6)
length-local_cells_example = length-local_cells 6 (omega arith)

distance-center_example : cells 6 * 2 ≤ (2 * 6 + 1) * (24 + 6)
unfolding distance abs64 neg_ℤ ◌+ℤ◌ ◌-ℤ◌ ◌*ℤ◌ center wrap32 wrap64 locate search_candidates
    candidate floor_div64 cell_count
distance-center_example =
    distance-center 6 cell chunk 2 24 (omega arith) (omega arith, omega arith)
      ((omega arith, omega arith), (omega arith, omega arith)) refl refl

-- From a radius of about 1.5 * 10^9 on the int64 products of Locate wrap, and its loops may find nothing.
abbrev wide_cell : Coord
wide_cell = record { q = negsuc 2102601600; r = negsuc 2105086992 }

wide_falls_through : search_candidates (lattice 1500000000) wide_cell ≡ none
unfolding distance abs64 neg_ℤ ◌+ℤ◌ ◌-ℤ◌ ◌*ℤ◌ wrap64 wrap32 search_candidates candidate floor_div64
    cell_count
wide_falls_through = refl
