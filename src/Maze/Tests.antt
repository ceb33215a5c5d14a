-- ===== src/Maze/Tests.antt =====
-- The theorems of chunk generation at concrete inputs.
use native.Mathlib.Nat.{mod-lt}
use lab_game.Prelude.{ℕ, refl, length, ◌≡◌, ◌<◌, ◌-◌, ◌%◌, ◌+◌, ◌⊎◌, List, [], ◌∷◌, arith}
use lab_game.Prelude.Int.{pos, negsuc, wrap32, neg_ℤ, ◌+ℤ◌, ◌-ℤ◌, ℤ, ◌*ℤ◌, ◌/ℤ◌, ltb_ℤ}
use lab_game.Hexgrid.Coord.{origin, Chunk, neighbor, direction_deltas, coord_eq}
use lab_game.Hexgrid.Lattice.{local_cells, range, upward}
use lab_game.Hexgrid.Lattice.Corner.{lattice}
use lab_game.Maze.Draw.{Stream, bounded_draw, shuffle, weighted_pick, max_uint64}
use lab_game.Maze.Draw.Bounds.{IsFair, EndsIn, bounded_draw-EndsIn}
use lab_game.Maze.Draw.Rearrange.{Rearranges, shuffle-Rearranges}
use lab_game.Maze.Draw.Weights.{IsWeighted, weighted_pick-IsWeighted}
use lab_game.Maze.Graph.{
  ChunkGraph, new_chunk_graph, interior_faces, faces_from, faces_of, keep_face, index, index_from,
}
use lab_game.Maze.Edges.{non_island_interior_faces}
use lab_game.Maze.Carve.Kruskal.{build_kruskal}
use lab_game.Maze.Carve.Kruskal.Forest.{SpansChunk, build_kruskal-SpansChunk}
use lab_game.Maze.Seed.{purpose_cycle, Crypto, border_key}
use lab_game.Maze.Seed.Encode.{preimage_inj}
use lab_game.Maze.Seed.Keys.{border_comm}
use lab_game.Maze.Portal.{border_candidates, non_consecutive_positions}
use lab_game.Maze.Portal.Spread.{IsApart, non_consecutive_positions-IsApart}
use lab_game.Maze.Params.{DecimalOps, Params}
use lab_game.Maze.Islands.{chunk_type_fabric}
use lab_game.Maze.Map.{Map}
use lab_game.Maze.Generate.{resolve_neighbor_maps, resolve_from, is_adjacent, map_of}
use lab_game.Maze.Generate.Resolve.{Accepted, resolve_neighbor_maps-Accepted}

-- A stream of small values: each one is accepted for some bound, and a zero for every bound.
abbrev counting : Stream
counting = record { values = λ p. p % 8; patience = 8 }

counting-IsFair : IsFair counting
counting-IsFair n p one small =
    let positive : 0 < n = omega arith in
    let rejected : max_uint64 % n < n = mod-lt max_uint64 positive in
    (7 - (p + 7) % 8, omega arith, omega arith)

abbrev four : List ℕ
four = 4 ∷ 8 ∷ 15 ∷ 16 ∷ []

abbrev six : ℕ
six = 6

bounded_draw-EndsIn_example :
    EndsIn (λ v. (v < six) ⊎ ((v ≡ 0) × (six ≡ 0))) 3 (bounded_draw counting six 3)
bounded_draw-EndsIn_example = bounded_draw-EndsIn counting six 3 counting-IsFair (omega arith)

shuffle-Rearranges_example : EndsIn (λ ys. Rearranges ys four) 0 (shuffle counting four 0)
shuffle-Rearranges_example = shuffle-Rearranges counting four 0 counting-IsFair (omega arith)

weighted_pick-IsWeighted_example : EndsIn (IsWeighted four) 5 (weighted_pick counting four 5)
weighted_pick-IsWeighted_example =
    weighted_pick-IsWeighted counting four 5 counting-IsFair (omega arith) (omega arith)

abbrev toy : Crypto
toy = record { sha256 = λ bytes. bytes; new_stream = λ key. counting }

abbrev here : Chunk
here = record { q = pos 2; r = negsuc 1 }

abbrev there : Chunk
there = record { q = pos 1; r = negsuc 1 }

border_comm_example :
    (border_key toy (pos 7) here there ≡ border_key toy (pos 7) there here)
    × (border_candidates (lattice 6) here there ≡ border_candidates (lattice 6) there here)
border_comm_example = border_comm toy (pos 7) (lattice 6) here there

-- A chunk of radius 1, whose centre is an island.
abbrev ring : ChunkGraph
ring = new_chunk_graph (lattice 1)

abbrev centre_only : List ℕ
centre_only = 3 ∷ []

ring_is_small : length (non_island_interior_faces ring centre_only) ≡ 6
unfolding new_chunk_graph non_island_interior_faces interior_faces faces_from faces_of keep_face
    index index_from local_cells neighbor direction_deltas range upward coord_eq wrap32 neg_ℤ ◌+ℤ◌
    ◌-ℤ◌
ring_is_small = refl

build_kruskal-SpansChunk_example :
    EndsIn (SpansChunk ring centre_only) 2 (build_kruskal ring centre_only counting 2)
build_kruskal-SpansChunk_example =
    build_kruskal-SpansChunk ring centre_only counting 2 counting-IsFair
      (omega (arith, ring_is_small))

abbrev east_map : Map
east_map = record {
  chunk = record { q = pos 1; r = pos 0 };
  typ = chunk_type_fabric;
  generation = pos 1;
  graph = ring;
  faces = [];
}

resolve_neighbor_maps-Accepted_example : Accepted origin (pos 1) (east_map ∷ []) [] (east_map ∷ [])
unfolding resolve_neighbor_maps resolve_from is_adjacent map_of new_chunk_graph neighbor
    direction_deltas coord_eq wrap32 ◌+ℤ◌
resolve_neighbor_maps-Accepted_example =
    resolve_neighbor_maps-Accepted origin (pos 1) (east_map ∷ []) (east_map ∷ []) refl

-- Five of the thirteen faces of a border of radius 6.
non_consecutive_positions-IsApart_example :
    EndsIn (IsApart 13 5) 4 (non_consecutive_positions counting 13 5 4)
non_consecutive_positions-IsApart_example =
    non_consecutive_positions-IsApart counting 13 5 4 counting-IsFair (omega arith) (omega arith)

-- Decimals with two digits behind the point, as hundredths.
abbrev hundredths : DecimalOps ℤ
hundredths = record {
  zero_share = pos 0;
  one_share = pos 100;
  half = pos 50;
  two_pow32 = pos 429496729600;
  from_int = λ n. n *ℤ pos 100;
  mul = λ a b. a *ℤ b /ℤ pos 100;
  plus = λ a b. a +ℤ b;
  less_than = λ a b. ltb_ℤ a b;
  ceil = λ a. (a +ℤ pos 99) /ℤ pos 100 *ℤ pos 100;
  floor = λ a. a /ℤ pos 100 *ℤ pos 100;
  int_part = λ a. a /ℤ pos 100;
}

abbrev shipped : Params ℤ
shipped = record {
  radius = pos 6;
  weights = four;
  island_share = pos 10;
  extra_passage_share = pos 15;
  growing_tree_bias = pos 50;
  portal_share_lower = pos 20;
  portal_share_upper = pos 50;
}

preimage_inj_example : (purpose_cycle ≡ purpose_cycle) × (here ≡ here)
preimage_inj_example =
    preimage_inj (7 ∷ 9 ∷ []) purpose_cycle purpose_cycle here here
      ((omega arith, omega arith), (omega arith, omega arith))
      ((omega arith, omega arith), (omega arith, omega arith)) refl
