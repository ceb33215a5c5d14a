-- ===== src/Hexgrid/Coord/Steps.antt =====
-- About Neighbor and Opposite, internal/hexgrid/coord.go.
use lab_game.Prelude.{◌≡◌, true, ◌↔◌, arith}
use lab_game.Prelude.Int.{pos, ◌+ℤ◌, wrap32-IsInt32, wrap32-add_back}
use lab_game.Hexgrid.Coord.{
  Coord, Direction, direction_deltas, opposite, neighbor, InRange, coord_ext, coord_eq,
}

-- The opposite of the opposite is the direction itself.
pub opposite-opposite : (d : Direction) → opposite (opposite d) ≡ d
unfolding opposite
opposite-opposite d = ground arith

-- A step from any coordinate ends in int32 range.
pub neighbor-InRange : (c : Coord) (d : Direction) → InRange (neighbor c d)
unfolding neighbor
neighbor-InRange c d =
    (wrap32-IsInt32 (c.q +ℤ (direction_deltas d).q), wrap32-IsInt32 (c.r +ℤ (direction_deltas d).r))

deltas_cancel :
    (d : Direction)
    → ((direction_deltas d).q +ℤ (direction_deltas (opposite d)).q ≡ pos 0)
      × ((direction_deltas d).r +ℤ (direction_deltas (opposite d)).r ≡ pos 0)
unfolding direction_deltas opposite ◌+ℤ◌
deltas_cancel d = ground arith

-- From every cell in int32 range, the seam included, a step and the opposite step return to it.
pub neighbor-neighbor-opposite :
    (c : Coord) (d : Direction) → InRange c → neighbor (neighbor c d) (opposite d) ≡ c
unfolding neighbor
neighbor-neighbor-opposite c d h =
    coord_ext _ _ (wrap32-add_back c.q _ _ h.0 (deltas_cancel d).0)
      (wrap32-add_back c.r _ _ h.1 (deltas_cancel d).1)

pub coord_eq_iff : (a b : Coord) → (coord_eq a b ≡ true) ↔ (a ≡ b)
unfolding coord_eq
coord_eq_iff a b = ground arith
