-- ===== src/Maze/Portal.antt =====
-- The guaranteed passages of a border: internal/maze/portal.go.
pub mod Spread
use lab_game.Prelude.{
  ℕ, zero, suc, ◌+◌, ◌-◌, leb, if◌then◌else◌, List, [], ◌∷◌, map, numbers, take, length,
}
use lab_game.Prelude.Int.{pos, pos_part, ◌+ℤ◌, ◌-ℤ◌, wrap32}
use lab_game.Hexgrid.Coord.{Coord, Chunk, Direction, dir_e, six_directions, neighbor, coord_eq}
use lab_game.Hexgrid.Face.{Face}
use lab_game.Hexgrid.Lattice.{Lattice, center, border}
use lab_game.Maze.Draw.{Stream, Draws, ◌>>=◌, ret, load, shuffle, bounded_draw}
use lab_game.Maze.Params.{DecimalOps, portal_bounds}
use lab_game.Maze.Seed.{canonical_order}

-- The first direction that leads from a chunk to another; the zero value when none does.
unfoldable pub direction_to : Chunk → Chunk → List Direction → Direction
direction_to lesser greater [] = dir_e
direction_to lesser greater (d ∷ ds) =
    if coord_eq (neighbor lesser d) greater then d else direction_to lesser greater ds

unfoldable pub border_candidates : Lattice → Chunk → Chunk → List Face
unfolding canonical_order direction_to border center
border_candidates l a b =
    let ends = canonical_order a b in
    let dir = direction_to ends.0 ends.1 six_directions in
    let centre = center l ends.0 in
    map
      (λ (f : Face).
        let c : Coord = record {
          q = wrap32 (centre.q +ℤ f.cell.q);
          r = wrap32 (centre.r +ℤ f.cell.r);
        } in
        let g : Face = record { cell = c; dir = f.dir } in g)
      (border l dir)

-- sort.Ints: the library function, by insertion.
abbrev pub insert : ℕ → List ℕ → List ℕ
insert x [] = x ∷ []
insert x (y ∷ ys) = if leb x y then x ∷ y ∷ ys else y ∷ insert x ys

abbrev pub sort : List ℕ → List ℕ
sort [] = []
sort (x ∷ xs) = insert x (sort xs)

-- chosen[i] += i, from index i on.
unfoldable pub spread : ℕ → List ℕ → List ℕ
spread i [] = []
spread i (x ∷ xs) = (x + i) ∷ spread (suc i) xs

-- The bound l - count + 1 is positive where the caller's count is at most l; a negative length, and a slice
-- beyond the pool, panic in Go.
unfoldable pub non_consecutive_positions : Stream → ℕ → ℕ → Draws (List ℕ)
unfolding spread shuffle
non_consecutive_positions s l zero = ret []
non_consecutive_positions s l (suc n) = do
  pool ← shuffle s (numbers 0 (l + 1 - suc n))
  let chosen = sort (take (suc n) pool)
  ret (spread 0 chosen)

abbrev pub faces_at : List Face → List ℕ → Draws (List Face)
faces_at candidates [] = ret []
faces_at candidates (p ∷ ps) = do f ← load candidates p; fs ← faces_at candidates ps; ret (f ∷ fs)

unfoldable pub select_portals :
    {D : Type 0} → DecimalOps D → List Face → Stream → D → D → Draws (List Face)
unfolding portal_bounds non_consecutive_positions
select_portals ops [] s lower_share upper_share = ret []
select_portals ops (c ∷ cs) s lower_share upper_share = do
  let bounds = portal_bounds ops lower_share upper_share (length (c ∷ cs))
  extra ← bounded_draw s (pos_part (bounds.1 -ℤ bounds.0 +ℤ pos 1))
  positions ← non_consecutive_positions s (length (c ∷ cs)) (pos_part (bounds.0 +ℤ pos extra))
  faces_at (c ∷ cs) positions
