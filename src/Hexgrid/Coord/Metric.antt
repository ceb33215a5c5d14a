-- ===== src/Hexgrid/Coord/Metric.antt =====
-- About Distance, internal/hexgrid/lattice.go.
use Prim.Native.Nat.{max}
use lab_game.Prelude.{ℕ, ◌+◌, ◌/◌, ◌≡◌, ◌∙◌, sym, ap, ◌↔◌, arith}
use lab_game.Prelude.Int.{
  ℤ, pos, pos_part, neg_part, neg_ℤ, ◌+ℤ◌, ◌-ℤ◌, ◌/ℤ◌, ◌≤ℤ◌, +ℤ_parts, -ℤ_parts, one_part,
  eq_of_parts,
}
use lab_game.Hexgrid.Coord.{Coord, distance, abs64, coord_ext}

abbrev pub size : ℤ → ℕ
size a = pos_part a + neg_part a

pub abs64_lem : (v : ℤ) → abs64 v ≡ pos (size v)
unfolding abs64 neg_ℤ
abs64_lem v = ground arith

half_pos : (a b c : ℕ) → (pos a +ℤ pos b +ℤ pos c) /ℤ pos 2 ≡ pos ((a + b + c) / 2)
unfolding ◌+ℤ◌
half_pos a b c = ground arith

-- The length of a displacement: the largest of its three cube coordinates.
abbrev pub norm : ℤ → ℤ → ℕ
norm x y = max (size x) (max (size y) (size (x +ℤ y)))

norm_lem : (x y : ℤ) → (size x + size y + size (x +ℤ y)) / 2 ≡ norm x y
norm_lem x y = omega (arith, +ℤ_parts x y, one_part x, one_part y, one_part (x +ℤ y))

-- The formula that Distance, ChunkDistance and Locate share.
pub length_lem : (x y : ℤ) → (abs64 x +ℤ abs64 y +ℤ abs64 (x +ℤ y)) /ℤ pos 2 ≡ pos (norm x y)
length_lem x y = simp abs64_lem (half_pos _ _ _ ∙ ap pos (norm_lem x y))

pub distance_lem : (a b : Coord) → distance a b ≡ pos (norm (a.q -ℤ b.q) (a.r -ℤ b.r))
unfolding distance
distance_lem a b = length_lem (a.q -ℤ b.q) (a.r -ℤ b.r)

-- The distance does not depend on the order of the two cells.
pub distance_comm : (a b : Coord) → distance a b ≡ distance b a
distance_comm a b =
    rw (distance_lem a b, distance_lem b a) (ap pos (omega (arith, -ℤ_parts, +ℤ_parts, one_part)))

-- The triangle inequality holds for Distance.
pub distance_triangle : (a b c : Coord) → distance a c ≤ℤ distance a b +ℤ distance b c
unfolding ◌+ℤ◌
distance_triangle a b c =
    rw (distance_lem a b, distance_lem b c, distance_lem a c)
      (omega (arith, -ℤ_parts, +ℤ_parts, one_part))

-- Two cells are at distance 0 exactly when they are one cell.
pub distance_zero : (a b : Coord) → (distance a b ≡ pos 0) ↔ (a ≡ b)
distance_zero a b = (
  λ e.
      let n : norm (a.q -ℤ b.q) (a.r -ℤ b.r) ≡ 0 = ap pos_part (sym (distance_lem a b) ∙ e) in
      coord_ext a b (omega (arith, -ℤ_parts, eq_of_parts a.q b.q))
        (omega (arith, -ℤ_parts, eq_of_parts a.r b.r)),
  λ e. rw e (distance_lem b b ∙ ap pos (omega (arith, -ℤ_parts, +ℤ_parts, one_part))),
)

distance-shift :
    (c : Coord) (u v : ℤ) → distance c (record { q = c.q +ℤ u; r = c.r +ℤ v }) ≡ pos (norm u v)
distance-shift c u v =
    distance_lem c (record { q = c.q +ℤ u; r = c.r +ℤ v })
    ∙ ap pos (omega (arith, -ℤ_parts, +ℤ_parts, one_part))
