-- ===== src/Maze/Carve/Wilson.antt =====
-- buildWilson of internal/maze/algorithms.go.
use lab_game.Prelude.{
  ℕ, zero, suc, not, ◌==◌, if◌then◌else◌, List, [], ◌∷◌, filter, has, Option, none, some,
}
use lab_game.Maze.Draw.{Stream, Draws, ◌>>=◌, ret, cut_off, pick}
use lab_game.Maze.Graph.{ChunkGraph, cell_count}
use lab_game.Maze.Edges.{EdgeSet, add, non_island_cells, non_island_neighbors}

-- nextStep: the newest entry of a cell stands first.
abbrev pub Steps : Type 0
Steps = List (ℕ × ℕ)

unfoldable pub step_from : Steps → ℕ → Option ℕ
step_from [] c = none
step_from (x ∷ xs) c = if x.0 == c then some x.1 else step_from xs c

-- The random walk from cur until it meets the tree. It takes one step for each unit of fuel: like the source's,
-- its length has no bound.
unfoldable pub random_walk : ChunkGraph → List ℕ → Stream → ℕ → List ℕ → Steps → ℕ → Draws Steps
random_walk g islands s zero in_tree steps cur = if has in_tree cur then ret steps else cut_off
random_walk g islands s (suc fuel) in_tree steps cur =
    let step : Draws Steps = non_island_neighbors g islands cur >>= λ ns. elim ns [
      | [] ↦ ret steps
      | n ∷ ns' ↦
          pick s (n ∷ ns') >>= λ nxt. random_walk g islands s fuel in_tree ((cur, nxt) ∷ steps) nxt
    ] in
    if has in_tree cur then ret steps else step

-- The loop that carves the walk in, from c on. It puts a cell into the tree at each iteration.
unfoldable pub carve : Steps → ℕ → List ℕ → EdgeSet → ℕ → Draws (List ℕ × EdgeSet)
unfolding step_from
carve steps zero in_tree opened c = if has in_tree c then ret (in_tree, opened) else cut_off
carve steps (suc fuel) in_tree opened c =
    let on : Draws (List ℕ × EdgeSet) = elim (step_from steps c) [
      | none ↦ ret (c ∷ in_tree, opened)
      | some nc ↦ carve steps fuel (c ∷ in_tree) (add opened c nc) nc
    ] in
    if has in_tree c then ret (in_tree, opened) else on

-- The first remaining cell that is not in the tree.
unfoldable pub first_outside : List ℕ → List ℕ → Option ℕ
first_outside in_tree [] = none
first_outside in_tree (c ∷ cs) = if has in_tree c then first_outside in_tree cs else some c

-- The loop over the remaining cells. Each iteration puts its start at least into the tree.
unfoldable pub walks : ChunkGraph → List ℕ → Stream → ℕ → List ℕ → List ℕ → EdgeSet → Draws EdgeSet
unfolding first_outside random_walk carve
walks g islands s fuel in_tree [] opened = ret opened
walks g islands s zero in_tree (c ∷ cs) opened = cut_off
walks g islands s (suc fuel) in_tree (c ∷ cs) opened = elim (first_outside in_tree (c ∷ cs)) [
  | none ↦ ret opened
  | some walk_start ↦ random_walk g islands s s.patience in_tree [] walk_start >>= λ steps.
      carve steps (cell_count g) in_tree opened walk_start >>= λ done.
      walks g islands s fuel done.0 (filter (λ x. not (has done.0 x)) (c ∷ cs)) done.1
]

unfoldable pub build_wilson : ChunkGraph → List ℕ → Stream → Draws EdgeSet
unfolding walks
build_wilson g islands s = elim (non_island_cells g islands) [
  | [] ↦ ret []
  | c ∷ cs ↦ pick s (c ∷ cs) >>= λ first.
      walks g islands s (cell_count g) (first ∷ [])
        (filter (λ x. not (has (first ∷ []) x)) (c ∷ cs)) []
]
