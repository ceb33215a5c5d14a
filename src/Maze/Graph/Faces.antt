-- ===== src/Maze/Graph/Faces.antt =====
-- About interiorFaces, internal/maze/chunkgraph.go.
use mathlib.Core.Path.{subst}
use lab_game.Prelude.{
  sym, ℕ, suc, ◌+◌, ◌≤◌, ◌<◌, ◌≡◌, refl, arith, leb, List, [], ◌∷◌, length, filter, Bool, true,
  false, Bool-cases, inl, inr, Option, some, none, some_inj, if◌then◌else◌,
}
use lab_game.Prelude.Members.{◌∈◌}
use lab_game.Hexgrid.Coord.{Coord, Direction, six_directions, neighbor, coord_eq}
use lab_game.Maze.Graph.{
  ChunkGraph, InteriorFace, cell_count, index_from, index, keep_face, faces_of, faces_from,
  interior_faces,
}

index_from-lt :
    (xs : List Coord) (i : ℕ) (c : Coord) (j : ℕ) → index_from xs i c ≡ some j → j < i + length xs
unfolding index_from
index_from-lt [] i c j e = absurd cc
index_from-lt (x ∷ xs) i c j e = elim (Bool-cases (coord_eq c x)) [
  | inl t ↦ let k : some i ≡ some j = rw t at e in omega (arith, some_inj i j k)
  | inr t ↦
      let k : index_from xs (suc i) c ≡ some j = rw t at e in
      omega (arith, index_from-lt xs (suc i) c j k)
]

index-lt : (g : ChunkGraph) (c : Coord) (j : ℕ) → index g c ≡ some j → j < cell_count g
unfolding index
index-lt g c j e = omega (arith, index_from-lt g.cells 0 c j e)

-- The ends of the face are cells of the chunk, in ascending order.
pub record IsInner (g : ChunkGraph) (f : InteriorFace) : Type 0 where
  pub first_in : f.a < cell_count g
  pub second_in : f.b < cell_count g
  pub ascending : f.a < f.b

module _ (g : ChunkGraph) where
  -- One direction adds no face, or one to a later cell.
  keep_face-IsInner :
      (idx : ℕ) (d : Direction) (o : Option ℕ) (rest : List InteriorFace)
      → idx < cell_count g
      → ((j : ℕ) → o ≡ some j → j < cell_count g)
      → ((f : InteriorFace) → f ∈ rest → IsInner g f)
      → (f : InteriorFace) → f ∈ keep_face idx d o rest
      → IsInner g f
  unfolding keep_face
  keep_face-IsInner idx d none rest h lt k f m = k f m
  keep_face-IsInner idx d (some j) rest h lt k f m = kept (leb j idx) (λ e. ground (arith, e)) m
    where
      kept :
          (late : Bool)
          → (late ≡ false → idx < j)
          → f ∈ (if late then rest else record { a = idx; b = j; dir = d } ∷ rest)
          → IsInner g f
      kept true later n = k f n
      kept false later (inr n) = k f n
      kept false later (inl same) =
          subst (IsInner g) (sym same)
            (record { first_in = h; second_in = lt j refl; ascending = later refl })

  mem-faces_of :
      (idx : ℕ) (local : Coord) (ds : List Direction) (rest : List InteriorFace)
      → idx < cell_count g
      → ((f : InteriorFace) → f ∈ rest → IsInner g f)
      → (f : InteriorFace) → f ∈ faces_of g idx local ds rest
      → IsInner g f
  unfolding faces_of
  mem-faces_of idx local [] rest h k f m = k f m
  mem-faces_of idx local (d ∷ ds) rest h k f m =
      keep_face-IsInner idx d (index g (neighbor local d)) (faces_of g idx local ds rest) h
        (λ j e. index-lt g (neighbor local d) j e) (mem-faces_of idx local ds rest h k) f m

  mem-faces_from :
      (idx : ℕ) (cells : List Coord)
      → idx + length cells ≤ cell_count g
      → (f : InteriorFace) → f ∈ faces_from g idx cells
      → IsInner g f
  unfolding faces_from
  mem-faces_from idx [] h f m = absurd m
  mem-faces_from idx (local ∷ cells) h f m =
      mem-faces_of idx local six_directions (faces_from g (suc idx) cells) (omega arith)
        (mem-faces_from (suc idx) cells (omega arith)) f m

  -- Every interior face joins two cells of the chunk, the first with the smaller index.
  pub interior_faces-IsInner : (f : InteriorFace) → f ∈ interior_faces g → IsInner g f
  unfolding interior_faces
  interior_faces-IsInner f m = mem-faces_from 0 g.cells (omega arith) f m

pub mem-filter :
    (p : InteriorFace → Bool) (fs : List InteriorFace) (f : InteriorFace) → f ∈ filter p fs → f ∈ fs
mem-filter p [] f m = absurd m
mem-filter p (x ∷ xs) f m = elim (Bool-cases (p x)) [
  | inl e ↦ elim (subst (λ (t : Bool). f ∈ (if t then x ∷ filter p xs else filter p xs)) e m) [
    | inl same ↦ inl same
    | inr n ↦ inr (mem-filter p xs f n)
  ]
  | inr e ↦ inr (
      mem-filter p xs f
        (subst (λ (t : Bool). f ∈ (if t then x ∷ filter p xs else filter p xs)) e m))
]
