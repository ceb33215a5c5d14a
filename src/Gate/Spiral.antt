-- ===== src/Gate/Spiral.antt =====
-- The spiral order of gate placement: internal/gate/spiral.go.
-- A ring number and a walk position are int64 values that are never negative: natural numbers.
mod Ring
pub mod Index
pub mod Met
pub mod Order
use lab_game.Prelude.{
  ℕ, zero, suc, ◌+◌, ◌-◌, ◌*◌, ◌/◌, ◌%◌, Bool, true, false, ◌&&◌, ltb, ◌==◌, if◌then◌else◌, List,
  [], ◌∷◌,
}
use lab_game.Prelude.Int.{
  ℤ, pos, pos_part, neg_part, ◌+ℤ◌, ◌-ℤ◌, ◌*ℤ◌, ◌/ℤ◌, ◌%ℤ◌, neg_ℤ, ltb_ℤ, eqb_ℤ, wrap32, wrap64,
}
use lab_game.Hexgrid.Coord.{
  Coord, Chunk, Direction, dir_e, dir_ne, dir_nw, dir_w, dir_sw, dir_se, index_of, neighbor, origin,
  distance,
}

abbrev pub sides : ℕ
sides = 6

unfoldable pub delta : Direction → Chunk
delta d = neighbor origin d

unfoldable pub floor_mod64 : ℤ → ℤ → ℤ
floor_mod64 a b = let m = a %ℤ b in if ltb_ℤ m (pos 0) then m +ℤ b else m

-- hexgrid.Direction(x) for x in [0, 6).
unfoldable pub direction_at : ℕ → Direction
direction_at zero = dir_e
direction_at (suc zero) = dir_ne
direction_at (suc (suc zero)) = dir_nw
direction_at (suc (suc (suc zero))) = dir_w
direction_at (suc (suc (suc (suc zero)))) = dir_sw
direction_at _ = dir_se

-- Point t of side d of ring n.
unfoldable pub side_chunk : ℕ → Direction → ℕ → Chunk
unfolding direction_at
side_chunk n d t =
    let corner = delta d in
    let step = delta (direction_at ((index_of d + 2) % sides)) in
    record {
      q = wrap32 (pos n *ℤ corner.q +ℤ pos t *ℤ step.q);
      r = wrap32 (pos n *ℤ corner.r +ℤ pos t *ℤ step.r);
    }

unfoldable pub ring_chunk : ℕ → ℕ → Chunk
ring_chunk n p =
    let e = pos_part (floor_mod64 (pos (p + n / 2)) (pos (sides * n))) in
    side_chunk n (direction_at (e / n)) (e % n)

-- The two loops of Spiral, from position p of ring n on, until `count` chunks have been yielded.
unfoldable pub walk : ℕ → ℕ → ℕ → List Chunk
unfolding ring_chunk
walk zero n p = []
walk (suc count) n p =
    let here = ltb (suc p) (sides * n) in
    ring_chunk n p ∷ walk count (if here then n else suc n) (if here then suc p else 0)

-- The first `count` chunks of Spiral.
unfoldable pub spiral : ℕ → List Chunk
unfolding walk
spiral zero = []
spiral (suc count) = origin ∷ walk count 1 0

-- The switch of SpiralIndex: the side that holds ch, and ch's place on it.
unfoldable pub side_of : ℤ → Chunk → Direction × ℤ
side_of n ch =
    let s = neg_ℤ ch.q -ℤ ch.r in
    if eqb_ℤ ch.q n && ltb_ℤ (neg_ℤ n) ch.r
    then (dir_e, neg_ℤ ch.r)
    else (if eqb_ℤ ch.r (neg_ℤ n) && ltb_ℤ (pos 0) ch.q
        then (dir_ne, n -ℤ ch.q)
        else (if eqb_ℤ s n && ltb_ℤ (neg_ℤ n) ch.q
            then (dir_nw, neg_ℤ ch.q)
            else (if eqb_ℤ ch.q (neg_ℤ n) && ltb_ℤ ch.r n
                then (dir_w, ch.r)
                else (if eqb_ℤ ch.r n && ltb_ℤ ch.q (pos 0)
                    then (dir_sw, ch.q +ℤ n)
                    else (dir_se, ch.q)))))

unfoldable pub spiral_index : Chunk → ℤ
spiral_index ch =
    let n = distance origin ch in
    if eqb_ℤ n (pos 0)
    then pos 0
    else let d = side_of n ch in
      let place = floor_mod64 (pos (index_of d.0) *ℤ n +ℤ d.1 -ℤ n /ℤ pos 2) (pos sides *ℤ n) in
      wrap64 (pos 1 +ℤ pos 3 *ℤ n *ℤ (n -ℤ pos 1) +ℤ place)
