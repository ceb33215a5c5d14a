-- ===== src/Gate/Depth.antt =====
-- The distance of a cell to the nearest gate: internal/gate/depth.go.

pub mod Rings
pub mod Nearest
pub mod Ends
use lab_game.Prelude.{
  ℕ, zero, suc, ◌+◌, ◌*◌, Bool, true, false, ◌&&◌, not, ◌||◌, if◌then◌else◌, List, [], ◌∷◌, ◌==◌,
  Option, none, some,
}
use lab_game.Prelude.Int.{ℤ, pos, negsuc, ◌+ℤ◌, ◌-ℤ◌, ◌*ℤ◌, ◌/ℤ◌, ltb_ℤ, leb_ℤ, wrap32, wrap64}
use lab_game.Hexgrid.Coord.{Coord, Chunk, distance}
use lab_game.Hexgrid.Lattice.{Lattice, cell_count, center, locate}
use lab_game.Gate.Spiral.{sides, ring_chunk}
use lab_game.Gate.Next.{Result, ok, err, negative_radius, contains}

-- Set: the keys of the map, in any order.
pub record GateSet : Type 0 where
  pub lattice : Lattice
  pub members : List Chunk

unfoldable pub new_set : Lattice → List Chunk → Result GateSet
new_set lattice gates =
    if ltb_ℤ lattice.radius (pos 0)
    then err negative_radius
    else ok (record { lattice = lattice; members = gates })

unfoldable pub ceil_div64 : ℤ → ℤ → ℤ
ceil_div64 a b = wrap64 (a +ℤ b -ℤ pos 1) /ℤ b

unfoldable pub lower_bound : Lattice → ℕ → ℤ
lower_bound l ring =
    ceil_div64 (wrap64 (pos ring *ℤ cell_count l)) (pos 2 *ℤ l.radius +ℤ pos 1) -ℤ l.radius

abbrev pub offset_by : Chunk → Chunk → Chunk
offset_by centre off = record { q = wrap32 (centre.q +ℤ off.q); r = wrap32 (centre.r +ℤ off.r) }

-- `left` more positions of ring n, from p on.
unfoldable pub ring_from : Chunk → ℕ → ℕ → ℕ → List Chunk
ring_from centre n p zero = []
ring_from centre n p (suc left) =
    offset_by centre (ring_chunk n p) ∷ ring_from centre n (suc p) left

unfoldable pub ring_chunks_around : Chunk → ℕ → List Chunk
unfolding ring_from
ring_chunks_around centre n = if n == 0 then centre ∷ [] else ring_from centre n 0 (sides * n)

-- The variables of the search: the least distance so far, and whether there is one.
abbrev pub Best : Type 0
Best = ℤ × Bool

-- The inner loop, over the chunks of one ring.
unfoldable pub visit : GateSet → Coord → List Chunk → Best → Best
visit s cell [] best = best
visit s cell (ch ∷ chs) (depth, found) =
    let d = distance cell (center s.lattice ch) in
    let nearer = contains s.members ch && (not found || ltb_ℤ d depth) in
    visit s cell chs (if nearer then (d, true) else (depth, found))

-- The loop over the rings. `none` means that the fuel ran out.
unfoldable pub search_rings : GateSet → Coord → Chunk → ℕ → ℕ → Best → ℤ → Option (ℤ × Bool × ℤ)
search_rings s cell c0 zero ring best last_ring = none
search_rings s cell c0 (suc fuel) ring best last_ring =
    let rest =
      search_rings s cell c0 fuel (suc ring) (visit s cell (ring_chunks_around c0 ring) best)
        (pos ring) in
    if best.1 && leb_ℤ best.0 (lower_bound s.lattice ring)
    then some (best.0, true, last_ring)
    else rest

unfoldable pub depth_search : ℕ → GateSet → Coord → Option (ℤ × Bool × ℤ)
depth_search fuel s cell = elim s.members [
  | [] ↦ some (pos 0, false, negsuc 0)
  | m ∷ ms ↦ search_rings s cell (locate s.lattice cell).0 fuel 0 (pos 0, false) (pos 0)
]

unfoldable pub depth : ℕ → GateSet → Coord → Option (ℤ × Bool)
unfolding depth_search search_rings visit
depth fuel s cell = elim (depth_search fuel s cell) [
  | none ↦ none
  | some (d, found, last_ring) ↦ some (d, found)
]
