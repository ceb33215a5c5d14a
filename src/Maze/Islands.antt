-- ===== src/Maze/Islands.antt =====
-- Island cells and extra passages: internal/maze/island.go and cycles.go.
use lab_game.Prelude.{
  ℕ, zero, suc, ◌-◌, Bool, true, false, not, ◌&&◌, ◌||◌, ◌==◌, leb, if◌then◌else◌, List, [], ◌∷◌,
  filter, has, length, take, Option, none, some, numbers,
}
use lab_game.Prelude.Int.{ℤ, pos, pos_part, leb_ℤ}
use lab_game.Hexgrid.Coord.{origin}
use lab_game.Maze.Draw.{Stream, Draws, ◌>>=◌, ret, cut_off, shuffle}
use lab_game.Maze.Graph.{
  ChunkGraph, InteriorFace, cell_count, neighbors, is_border_cell, local_index,
}
use lab_game.Maze.Edges.{EdgeSet, add, has_edge, non_island_interior_faces}
use lab_game.Maze.Params.{DecimalOps, Params, island_target, round_half_up}

-- ChunkType: the two types, and any other value, the zero value included.
pub data ChunkType : Type 0 where
  chunk_type_fabric chunk_type_gate chunk_type_other : ChunkType

unfoldable pub is_valid_type : ChunkType → Bool
is_valid_type chunk_type_fabric = true
is_valid_type chunk_type_gate = true
is_valid_type chunk_type_other = false

abbrev is_gate : ChunkType → Bool
is_gate chunk_type_gate = true
is_gate _ = false

-- The inner loop of connectedOverInduced: the visited cells and the stack, whose top is its head.
unfoldable pub push_all : List ℕ → List ℕ → List ℕ × List ℕ → List ℕ × List ℕ
push_all islands [] state = state
push_all islands (n ∷ ns) (visited, stack) =
    push_all islands ns
      (if has islands n || has visited n then (visited, stack) else (n ∷ visited, n ∷ stack))

-- The flood fill. Each iteration pops a cell, and no cell is pushed twice.
unfoldable pub flood : ChunkGraph → List ℕ → ℕ → List ℕ → List ℕ → Draws (List ℕ)
unfolding push_all
flood g islands fuel visited [] = ret visited
flood g islands zero visited (cur ∷ stack) = cut_off
flood g islands (suc fuel) visited (cur ∷ stack) = do
  ns ← neighbors g cur
  let next = push_all islands ns (visited, stack)
  flood g islands fuel next.0 next.1

unfoldable pub connected_over_induced : ChunkGraph → List ℕ → ℕ → Draws Bool
unfolding flood
connected_over_induced g islands start = do
  visited ← flood g islands (cell_count g) (start ∷ []) (start ∷ [])
  ret (length visited == cell_count g - length islands)

abbrev first_of : Option ℕ → ℕ → Option ℕ
first_of none idx = some idx
first_of (some b) idx = some b

-- The loop over the cells: the first border cell, and the candidates.
unfoldable pub candidates_of : ChunkGraph → Bool → ℕ → List ℕ → Option ℕ → Draws (Option ℕ × List ℕ)
unfolding is_border_cell
candidates_of g gate centre [] first_border = ret (first_border, [])
candidates_of g gate centre (idx ∷ rest) first_border = do
  on_border ← is_border_cell g idx
  found ←
      candidates_of g gate centre rest
        (if on_border then first_of first_border idx else first_border)
  ret (found.0, if on_border || (gate && (idx == centre)) then found.1 else idx ∷ found.1)

-- The loop that keeps a candidate when the other cells stay connected.
unfoldable pub take_islands : ChunkGraph → ℕ → ℤ → List ℕ → List ℕ → Draws (List ℕ)
unfolding connected_over_induced
take_islands g border target [] islands = ret islands
take_islands g border target (c ∷ cs) islands =
    let try : Draws (List ℕ) = connected_over_induced g (c ∷ islands) border >>= λ connected.
    take_islands g border target cs (if connected then c ∷ islands else islands) in
    if leb_ℤ target (pos (length islands)) then ret islands else try

unfoldable pub add_faces : List InteriorFace → EdgeSet → EdgeSet
add_faces [] opened = opened
add_faces (f ∷ fs) opened = add_faces fs (add opened f.a f.b)

module _ {D : Type 0} where
  unfoldable pub select_islands :
      DecimalOps D → ChunkGraph → Stream → Params D → ChunkType → Draws (List ℕ)
  unfolding candidates_of take_islands island_target local_index
  select_islands ops g s p typ =
      let target = island_target ops p in
      let go : Draws (List ℕ) =
        candidates_of g (is_gate typ) (local_index g origin) (numbers 0 (cell_count g)) none
        >>= λ found. elim found.0 [
          | none ↦ ret []
          | some border ↦
              shuffle s found.1 >>= λ candidates. take_islands g border target candidates []
        ] in
      if leb_ℤ target (pos 0) then ret [] else go

  unfoldable pub add_extra_passages :
      DecimalOps D → ChunkGraph → List ℕ → EdgeSet → Stream → D → Draws EdgeSet
  unfolding add_faces round_half_up has_edge
  add_extra_passages ops g islands opened s share =
      let non_island_count = cell_count g - length islands in
      let target = round_half_up ops (ops.mul share (ops.from_int (pos (non_island_count - 1)))) in
      let go : Draws EdgeSet =
        shuffle s (
          filter (λ (f : InteriorFace). not (has_edge opened f.a f.b))
            (non_island_interior_faces g islands))
        >>= λ candidates. ret (add_faces (take (pos_part target) candidates) opened) in
      if leb non_island_count 1 || leb_ℤ target (pos 0) then ret opened else go
