-- ===== src/Hexgrid/Coord.antt =====
-- Cells, chunks, directions and the hex distance: internal/hexgrid/coord.go and chunk.go.
-- A field of Go's type int32 is an integer; what is stored in it is wrapped by `wrap32`. The
-- distances are computed in int64, in which no sum of int32 values leaves the range.
pub mod Steps
pub mod Metric
use lab_game.Prelude.{ℕ, suc, ◌+◌, ◌/◌, ◌≡◌, ◌&&◌, Bool, true, List, [], ◌∷◌, if◌then◌else◌}
use lab_game.Prelude.Int.{ℤ, pos, negsuc, ◌+ℤ◌, ◌-ℤ◌, ◌/ℤ◌, neg_ℤ, ltb_ℤ, eqb_ℤ, wrap32, IsInt32}

-- A Coord, and a Chunk one level up: the two Go types have the same fields and the same Neighbor.
pub record Coord : Type 0 where
  pub q : ℤ
  pub r : ℤ

abbrev pub Chunk : Type 0
Chunk = Coord

abbrev pub origin : Coord
origin = record { q = pos 0; r = pos 0 }

-- The six values of Direction in canonical order.
pub data Direction : Type 0 where
  dir_e dir_ne dir_nw dir_w dir_sw dir_se : Direction

abbrev pub index_of : Direction → ℕ
index_of dir_e = 0
index_of dir_ne = 1
index_of dir_nw = 2
index_of dir_w = 3
index_of dir_sw = 4
index_of dir_se = 5

abbrev pub six_directions : List Direction
six_directions = dir_e ∷ dir_ne ∷ dir_nw ∷ dir_w ∷ dir_sw ∷ dir_se ∷ []

unfoldable pub direction_deltas : Direction → Coord
direction_deltas dir_e = record { q = pos 1; r = pos 0 }
direction_deltas dir_ne = record { q = pos 1; r = negsuc 0 }
direction_deltas dir_nw = record { q = pos 0; r = negsuc 0 }
direction_deltas dir_w = record { q = negsuc 0; r = pos 0 }
direction_deltas dir_sw = record { q = negsuc 0; r = pos 1 }
direction_deltas dir_se = record { q = pos 0; r = pos 1 }

unfoldable pub opposite : Direction → Direction
opposite dir_e = dir_w
opposite dir_ne = dir_sw
opposite dir_nw = dir_se
opposite dir_w = dir_e
opposite dir_sw = dir_ne
opposite dir_se = dir_nw

unfoldable pub neighbor : Coord → Direction → Coord
unfolding direction_deltas
neighbor c d =
    let delta = direction_deltas d in
    record { q = wrap32 (c.q +ℤ delta.q); r = wrap32 (c.r +ℤ delta.r) }

unfoldable pub abs64 : ℤ → ℤ
abs64 v = if ltb_ℤ v (pos 0) then neg_ℤ v else v

-- Distance of two cells and ChunkDistance of two chunks: the same formula on the same fields.
unfoldable pub distance : Coord → Coord → ℤ
distance a b =
    let dq = a.q -ℤ b.q in
    let dr = a.r -ℤ b.r in (abs64 dq +ℤ abs64 dr +ℤ abs64 (dq +ℤ dr)) /ℤ pos 2

-- Go's == on the struct.
unfoldable pub coord_eq : Coord → Coord → Bool
coord_eq a b = eqb_ℤ a.q b.q && eqb_ℤ a.r b.r

-- Both fields hold values of Go's int32.
abbrev pub InRange : Coord → Type 0
InRange c = IsInt32 c.q × IsInt32 c.r

pub coord_ext : (a b : Coord) → a.q ≡ b.q → a.r ≡ b.r → a ≡ b
coord_ext a b p q = λ i. record { q = p i; r = q i }
