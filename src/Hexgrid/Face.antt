-- ===== src/Hexgrid/Face.antt =====
-- Faces, the shared boundaries of two cells: internal/hexgrid/face.go.
use lab_game.Prelude.{◌≡◌, ltb, if◌then◌else◌, arith}
use lab_game.Hexgrid.Coord.{Coord, Direction, index_of, opposite, neighbor, InRange}
use lab_game.Hexgrid.Coord.Steps.{neighbor-neighbor-opposite}

pub record Face : Type 0 where
  pub cell : Coord
  pub dir : Direction

-- FaceOf: the direction of a canonical face is the earlier of two opposite ones.
unfoldable pub face_of : Coord → Direction → Face
face_of c d =
    let opp = opposite d in
    if ltb (index_of d) (index_of opp)
    then record { cell = c; dir = d }
    else record { cell = neighbor c d; dir = opp }

-- Both sides of a boundary name it by one face, in int32 range and on its seam.
pub face_of-neighbor :
    (c : Coord) (d : Direction) → InRange c → face_of (neighbor c d) (opposite d) ≡ face_of c d
unfolding face_of opposite
face_of-neighbor c d h = ground (arith, neighbor-neighbor-opposite c d h)
