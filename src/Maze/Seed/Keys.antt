-- ===== src/Maze/Seed/Keys.antt =====
-- About canonicalOrder, borderKey and borderCandidates, internal/maze/seed.go and portal.go.
use lab_game.Prelude.{◌≡◌, refl, sym, ap, arith, inl, inr, ◌∙◌, Bool-cases}
use lab_game.Prelude.Int.{ℤ, eq_of_parts}
use lab_game.Hexgrid.Coord.{Chunk, coord_ext}
use lab_game.Hexgrid.Lattice.{Lattice}
use lab_game.Maze.Seed.{Crypto, canonical_order, chunk_less, border_key}
use lab_game.Maze.Portal.{border_candidates}

-- The canonical order of two chunks does not depend on the order in which they are given.
pub canonical_order_comm : (a b : Chunk) → canonical_order a b ≡ canonical_order b a
unfolding canonical_order chunk_less
canonical_order_comm a b = elim (Bool-cases (chunk_less b a)) [
  | inl e ↦ elim (Bool-cases (chunk_less a b)) [
    | inl f ↦ absurd (ground (arith, e, f))
    | inr f ↦ rw (e, f) refl
  ]
  | inr e ↦ elim (Bool-cases (chunk_less a b)) [
    | inl f ↦ rw (e, f) refl
    | inr f ↦
        let same : a ≡ b =
          coord_ext a b (ground (arith, e, f, eq_of_parts a.q b.q))
            (ground (arith, e, f, eq_of_parts a.r b.r)) in
        rw (e, f) (ap (λ x. (a, x)) (sym same) ∙ ap (λ x. (x, a)) same)
  ]
]

-- Both chunks of a border derive its key and its candidate faces alike.
pub border_comm :
    (c : Crypto) (seed : ℤ) (l : Lattice) (a b : Chunk)
    → (border_key c seed a b ≡ border_key c seed b a)
      × (border_candidates l a b ≡ border_candidates l b a)
unfolding border_key border_candidates
border_comm c seed l a b = rw (canonical_order_comm a b) (refl, refl)
