-- ===== src/Hexgrid/Lattice/Unique.antt =====
-- About the nearest centre of a cell: internal/hexgrid/lattice.go.
use lab_game.Prelude.{ℕ, ◌+◌, ◌*◌, ◌-◌, ◌^◌, ◌≤◌, ◌<◌, ◌≡◌, ap, arith}
use lab_game.Prelude.Int.{ℤ, pos, pos_part, neg_part, -ℤ_parts, one_part, wrap32_self, IsInt32}
use lab_game.Hexgrid.Coord.{Coord, InRange}
use lab_game.Hexgrid.Lattice.{center_q, center_r}
use lab_game.Hexgrid.Lattice.Cover.{cells, cancel_le}
use lab_game.Hexgrid.Lattice.Center.{center_q_parts, center_r_parts}
use lab_game.Hexgrid.Lattice.Corner.{shift_q, shift_r, IsNear}
use lab_game.Hexgrid.Lattice.Search.{place}

pub mul_mono : (m a b : ℕ) → a ≤ b → m * a ≤ m * b
mul_mono m a b h = grind arith

le_square : (r : ℕ) → r ≤ r * r
le_square r = grind arith

module _ (r : ℕ) (c : Coord) (i j : ℤ) (near : IsNear r c i j) where
  -- The centre's two equations, solved for the chunk's coordinates.
  solve_i :
      cells r * pos_part i
        + (r + 1) * (pos_part (shift_q r c i j) + neg_part c.q)
        + r * (neg_part (shift_r r c i j) + pos_part c.r)
      ≡ cells r * neg_part i
        + (r + 1) * (neg_part (shift_q r c i j) + pos_part c.q)
        + r * (pos_part (shift_r r c i j) + neg_part c.r)
  solve_i = omega (
    arith,
    ap (λ (t : ℕ). (r + 1) * t) (-ℤ_parts c.q (center_q (pos r) i j)),
    ap (λ (t : ℕ). (r + 1) * t) (center_q_parts r i j),
    ap (λ (t : ℕ). r * t) (-ℤ_parts c.r (center_r (pos r) i j)),
    ap (λ (t : ℕ). r * t) (center_r_parts r i j),
  )

  solve_j :
      cells r * pos_part j
        + r * (pos_part (shift_q r c i j) + neg_part c.q)
        + (2 * r + 1) * (pos_part (shift_r r c i j) + neg_part c.r)
      ≡ cells r * neg_part j
        + r * (neg_part (shift_q r c i j) + pos_part c.q)
        + (2 * r + 1) * (neg_part (shift_r r c i j) + pos_part c.r)
  solve_j = omega (
    arith,
    ap (λ (t : ℕ). r * t) (-ℤ_parts c.q (center_q (pos r) i j)),
    ap (λ (t : ℕ). r * t) (center_q_parts r i j),
    ap (λ (t : ℕ). (2 * r + 1) * t) (-ℤ_parts c.r (center_r (pos r) i j)),
    ap (λ (t : ℕ). (2 * r + 1) * t) (center_r_parts r i j),
  )

  module _ (inside : InRange c) where
    -- Every part of the cell and of its displacement, times the radius, is bounded.
    abbrev Bounds : Type 0
    Bounds =
        (r * pos_part (shift_q r c i j) ≤ r * r)
        × (r * neg_part (shift_q r c i j) ≤ r * r)
        × (r * pos_part (shift_r r c i j) ≤ r * r)
        × (r * neg_part (shift_r r c i j) ≤ r * r)
        × (r * pos_part c.q ≤ r * (2 ^ 31 - 1))
        × (r * neg_part c.q ≤ r * 2 ^ 31)
        × (r * pos_part c.r ≤ r * (2 ^ 31 - 1))
        × (r * neg_part c.r ≤ r * 2 ^ 31)
        × (r ≤ r * r)

    bounds : Bounds
    bounds = (
      mul_mono r _ _ (omega arith),
      mul_mono r _ _ (omega arith),
      mul_mono r _ _ (omega arith),
      mul_mono r _ _ (omega arith),
      mul_mono r _ _ (omega arith),
      mul_mono r _ _ (omega arith),
      mul_mono r _ _ (omega arith),
      mul_mono r _ _ (omega arith),
      le_square r,
    )

    i-IsInt32 : IsInt32 i
    i-IsInt32 =
        let b = bounds in
        let up : pos_part i ≤ neg_part i + (2 ^ 31 - 1) =
          cancel_le (cells r) _ _ (3 * r * r + 3 * r) (omega (arith, solve_i)) (omega arith) in
        let down : neg_part i ≤ pos_part i + 2 ^ 31 =
          cancel_le (cells r) _ _ 0 (omega (arith, solve_i)) (omega arith) in
        (omega (arith, one_part i), omega (arith, one_part i))

    j-IsInt32 : IsInt32 j
    j-IsInt32 =
        let b = bounds in
        let up : pos_part j ≤ neg_part j + (2 ^ 31 - 1) =
          cancel_le (cells r) _ _ (3 * r * r + 3 * r) (omega (arith, solve_j)) (omega arith) in
        let down : neg_part j ≤ pos_part j + 2 ^ 31 =
          cancel_le (cells r) _ _ 0 (omega (arith, solve_j)) (omega arith) in
        (omega (arith, one_part j), omega (arith, one_part j))

    -- What Locate returns is in int32 range before its conversions.
    pub place_lem :
        r < 2 ^ 31
        → place r c i j
          ≡ (record { q = i; r = j }, record { q = shift_q r c i j; r = shift_r r c i j })
    place_lem hr = rw (
      wrap32_self i i-IsInt32,
      wrap32_self j j-IsInt32,
      wrap32_self (shift_q r c i j) (omega arith),
      wrap32_self (shift_r r c i j) (omega arith),
    )
