-- ===== src/Gate/Tests.antt =====
-- The theorems of the placement rule at concrete inputs.
use lab_game.Prelude.{
  ◌≡◌, refl, ◌↔◌, inl, inr, ◌+◌, ◌*◌, ◌-◌, List, [], ◌∷◌, some, true, arith, get_elem?,
}
use lab_game.Prelude.Int.{ℤ, pos, negsuc, ◌+ℤ◌, ◌-ℤ◌, ◌*ℤ◌, neg_ℤ, wrap32, wrap64}
use lab_game.Prelude.Members.{◌∈◌, All-mem}
use lab_game.Hexgrid.Coord.{Coord, Chunk, distance, origin, abs64}
use lab_game.Hexgrid.Lattice.{locate, center, search_candidates, candidate, floor_div64, cell_count}
use lab_game.Gate.Spiral.{ring_chunk, spiral, spiral_index}
use lab_game.Gate.Spiral.Index.{spiral_index-ring_chunk}
use lab_game.Gate.Spiral.Order.{spiral_index_inj, spiral-spiral_index}
use lab_game.Gate.Next.{next, ok, farthest}
use lab_game.Gate.Next.Earliest.{IsNext, next-IsNext}
use lab_game.Gate.Depth.{depth, ring_chunks_around}
use lab_game.Gate.Depth.Rings.{mem-ring_chunks_around}
use lab_game.Gate.Depth.Nearest.{IsLeast}
use lab_game.Gate.Depth.Ends.{gates, Fits, depth-IsLeast}

abbrev first_chunk : Chunk
first_chunk = record { q = pos 1; r = pos 0 }

abbrev gate_chunk : Chunk
gate_chunk = record { q = pos 1; r = negsuc 1 }

abbrev two_gates : List Chunk
two_gates = origin ∷ gate_chunk ∷ []

abbrev cell : Coord
cell = record { q = pos 9; r = negsuc 3 }

spiral_index-ring_chunk_example :
    (spiral_index (ring_chunk 2 7) ≡ pos (1 + 3 * 2 * (2 - 1) + 7))
    × (distance origin (ring_chunk 2 7) ≡ pos 2)
spiral_index-ring_chunk_example =
    spiral_index-ring_chunk 2 7 (omega arith) (omega arith) (omega arith)

spiral_index_inj_example : gate_chunk ≡ gate_chunk
unfolding distance abs64 neg_ℤ ◌+ℤ◌ ◌-ℤ◌
spiral_index_inj_example =
    spiral_index_inj gate_chunk gate_chunk 2 2 refl refl (omega arith) (omega arith) refl

spiral-spiral_index_example :
    (get_elem? (spiral 19) 5 ≡ some first_chunk) ↔ (spiral_index first_chunk ≡ pos 5)
unfolding distance abs64 neg_ℤ ◌+ℤ◌ ◌-ℤ◌
spiral-spiral_index_example =
    spiral-spiral_index 2 19 5 1 first_chunk (omega arith) (omega arith) (omega arith) refl
      (omega arith)

next-IsNext_example :
    (ch : Chunk) × (next two_gates two_gates (pos 2) ≡ ok ch) × IsNext two_gates two_gates 2 ch
unfolding farthest distance abs64 neg_ℤ ◌+ℤ◌ ◌-ℤ◌
next-IsNext_example = next-IsNext two_gates two_gates 2 (omega arith)

mem-ring_chunks_around_example : gate_chunk ∈ ring_chunks_around first_chunk 2
unfolding distance abs64 neg_ℤ ◌+ℤ◌ ◌-ℤ◌
mem-ring_chunks_around_example =
    mem-ring_chunks_around first_chunk gate_chunk 2
      ((omega arith, omega arith), (omega arith, omega arith)) (omega arith) refl

two_gates-Fits : (h : Chunk) → h ∈ two_gates → Fits 6 cell h
unfolding distance abs64 neg_ℤ ◌+ℤ◌ ◌-ℤ◌ ◌*ℤ◌ wrap32 wrap64 locate search_candidates candidate
    floor_div64 cell_count
two_gates-Fits = All-mem (Fits 6 cell) two_gates (
  record {
    chunk_fits = ((omega arith, omega arith), (omega arith, omega arith));
    q_fits = (omega arith, omega arith);
    r_fits = (omega arith, omega arith);
    near_enough = omega arith;
  },
  (
    record {
      chunk_fits = ((omega arith, omega arith), (omega arith, omega arith));
      q_fits = (omega arith, omega arith);
      r_fits = (omega arith, omega arith);
      near_enough = omega arith;
    },
    tt,
  ),
)

depth-IsLeast_example :
    (d : ℤ) × (depth 40 (gates 6 two_gates) cell ≡ some (d, true))
    × IsLeast (gates 6 two_gates) cell d
unfolding distance abs64 neg_ℤ ◌+ℤ◌ ◌-ℤ◌ ◌*ℤ◌ wrap32 wrap64 locate search_candidates candidate
    floor_div64 cell_count center
depth-IsLeast_example =
    depth-IsLeast 6 two_gates cell gate_chunk 40 (omega arith)
      ((omega arith, omega arith), (omega arith, omega arith)) two_gates-Fits (inr (inl refl))
      (omega arith) (omega arith)

abbrev no_gates : List Chunk
no_gates = []
