-- ===== src/Hexgrid/Lattice/Corner.antt =====
-- The four candidate chunks of Locate, internal/hexgrid/lattice.go.
use lab_game.Prelude.{ℕ, ◌+◌, ◌*◌, ◌≤◌, ◌<◌, ◌^◌, ◌≡◌, ap, ◌⊎◌, inl, inr, arith}
use lab_game.Prelude.Int.{
  ℤ, pos, pos_part, neg_part, ◌+ℤ◌, ◌-ℤ◌, +ℤ_parts, -ℤ_parts, one_part, mul_bound,
}
use lab_game.Hexgrid.Coord.{Coord, InRange}
use lab_game.Hexgrid.Coord.Metric.{norm}
use lab_game.Hexgrid.Lattice.{Lattice, center_q, center_r, i_star, j_star}
use lab_game.Hexgrid.Lattice.Cover.{cells, covered, displaced}
use lab_game.Hexgrid.Lattice.Center.{center_q_parts, center_r_parts, i_star_lem, j_star_lem}

-- The displacement of cell `c` from the centre of chunk (i, j).
abbrev pub shift_q : ℕ → Coord → ℤ → ℤ → ℤ
shift_q r c i j = c.q -ℤ center_q (pos r) i j

abbrev pub shift_r : ℕ → Coord → ℤ → ℤ → ℤ
shift_r r c i j = c.r -ℤ center_r (pos r) i j

abbrev pub lattice : ℕ → Lattice
lattice r = record { radius = pos r }

abbrev pub IsNear : ℕ → Coord → ℤ → ℤ → Type 0
IsNear r c i j = norm (shift_q r c i j) (shift_r r c i j) ≤ r

-- A displacement whose sums stay in int64.
abbrev pub IsShort : ℤ → Type 0
IsShort a = (pos_part a < 2 ^ 60) × (neg_part a < 2 ^ 60)

module _ (r : ℕ) (c : Coord) (hr : r < 2 ^ 30) (inside : InRange c) where
  abbrev pub i0 : ℤ
  i0 = i_star (lattice r) c

  abbrev pub j0 : ℤ
  j0 = j_star (lattice r) c

  shift_q_corner :
      (u v : ℕ)
      → pos_part (shift_q r c (i0 +ℤ pos u) (j0 +ℤ pos v))
          + neg_part (shift_q r c i0 j0)
          + u * (2 * r + 1)
          + v * r
        ≡ neg_part (shift_q r c (i0 +ℤ pos u) (j0 +ℤ pos v)) + pos_part (shift_q r c i0 j0)
  shift_q_corner u v = omega (
    arith,
    -ℤ_parts c.q (center_q (pos r) (i0 +ℤ pos u) (j0 +ℤ pos v)),
    -ℤ_parts c.q (center_q (pos r) i0 j0),
    center_q_parts r (i0 +ℤ pos u) (j0 +ℤ pos v),
    center_q_parts r i0 j0,
    ap (λ (t : ℕ). t * (2 * r + 1)) (+ℤ_parts i0 (pos u)),
    ap (λ (t : ℕ). t * r) (+ℤ_parts j0 (pos v)),
  )

  shift_r_corner :
      (u v : ℕ)
      → pos_part (shift_r r c (i0 +ℤ pos u) (j0 +ℤ pos v))
          + neg_part (shift_r r c i0 j0)
          + v * (r + 1)
        ≡ neg_part (shift_r r c (i0 +ℤ pos u) (j0 +ℤ pos v)) + pos_part (shift_r r c i0 j0) + u * r
  shift_r_corner u v = omega (
    arith,
    -ℤ_parts c.r (center_r (pos r) (i0 +ℤ pos u) (j0 +ℤ pos v)),
    -ℤ_parts c.r (center_r (pos r) i0 j0),
    center_r_parts r (i0 +ℤ pos u) (j0 +ℤ pos v),
    center_r_parts r i0 j0,
    ap (λ (t : ℕ). t * r) (+ℤ_parts i0 (pos u)),
    ap (λ (t : ℕ). t * (r + 1)) (+ℤ_parts j0 (pos v)),
  )

  -- A displacement with all three coordinates within r of 0, by the parts of its coordinates.
  near :
      (u v : ℕ)
      → (pos_part (shift_q r c i0 j0) ≤ neg_part (shift_q r c i0 j0) + u * (2 * r + 1) + v * r + r)
      → (neg_part (shift_q r c i0 j0) + u * (2 * r + 1) + v * r ≤ pos_part (shift_q r c i0 j0) + r)
      → (pos_part (shift_r r c i0 j0) + u * r ≤ neg_part (shift_r r c i0 j0) + v * (r + 1) + r)
      → (neg_part (shift_r r c i0 j0) + v * (r + 1) ≤ pos_part (shift_r r c i0 j0) + u * r + r)
      → (pos_part (shift_q r c i0 j0) + pos_part (shift_r r c i0 j0)
          ≤ neg_part (shift_q r c i0 j0)
            + neg_part (shift_r r c i0 j0)
            + u * (r + 1)
            + v * (2 * r + 1)
            + r)
      → (neg_part (shift_q r c i0 j0) + neg_part (shift_r r c i0 j0) + u * (r + 1) + v * (2 * r + 1)
          ≤ pos_part (shift_q r c i0 j0) + pos_part (shift_r r c i0 j0) + r)
      → IsNear r c (i0 +ℤ pos u) (j0 +ℤ pos v)
  near u v h1 h2 h3 h4 h5 h6 =
      let x = shift_q r c (i0 +ℤ pos u) (j0 +ℤ pos v) in
      let y = shift_r r c (i0 +ℤ pos u) (j0 +ℤ pos v) in
      omega (
        arith,
        shift_q_corner u v,
        shift_r_corner u v,
        +ℤ_parts x y,
        one_part x,
        one_part y,
        one_part (x +ℤ y),
      )

  -- The remainders of the estimates give the displacement from the lower corner.
  record Displaced : Type 0 where
    a : ℕ
    b : ℕ
    a_lt : a < cells r
    b_lt : b < cells r
    along_q :
        cells r * pos_part (shift_q r c i0 j0)
        ≡ cells r * neg_part (shift_q r c i0 j0) + (2 * r + 1) * a + r * b
    along_r :
        cells r * pos_part (shift_r r c i0 j0) + r * a
        ≡ cells r * neg_part (shift_r r c i0 j0) + (r + 1) * b

  lower_corner : Displaced
  lower_corner =
      let (a, ha, ea) = i_star_lem r c hr inside in
      let (b, hb, eb) = j_star_lem r c hr inside in
      let dq = -ℤ_parts c.q (center_q (pos r) i0 j0) in
      let dr = -ℤ_parts c.r (center_r (pos r) i0 j0) in
      record {
        a = a;
        b = b;
        a_lt = ha;
        b_lt = hb;
        along_q = omega (
          arith,
          ap (λ (t : ℕ). t * (2 * r + 1)) ea,
          ap (λ (t : ℕ). t * r) eb,
          ap (λ (t : ℕ). cells r * t) dq,
          ap (λ (t : ℕ). cells r * t) (center_q_parts r i0 j0),
        );
        along_r = omega (
          arith,
          ap (λ (t : ℕ). t * r) ea,
          ap (λ (t : ℕ). t * (r + 1)) eb,
          ap (λ (t : ℕ). cells r * t) dr,
          ap (λ (t : ℕ). cells r * t) (center_r_parts r i0 j0),
        );
      }

  pub corner-IsShort :
      (u v : ℕ)
      → u ≤ 1
      → v ≤ 1
      → IsShort (shift_q r c (i0 +ℤ pos u) (j0 +ℤ pos v))
        × IsShort (shift_r r c (i0 +ℤ pos u) (j0 +ℤ pos v))
  corner-IsShort u v hu hv =
      let d = lower_corner in
      let near =
        displaced r d.a d.b (pos_part (shift_q r c i0 j0)) (neg_part (shift_q r c i0 j0))
          (pos_part (shift_r r c i0 j0)) (neg_part (shift_r r c i0 j0)) d.a_lt d.b_lt d.along_q
          d.along_r in
      let x = shift_q r c (i0 +ℤ pos u) (j0 +ℤ pos v) in
      let y = shift_r r c (i0 +ℤ pos u) (j0 +ℤ pos v) in
      let ex = shift_q_corner u v in
      let ey = shift_r_corner u v in
      let ox = one_part x in
      let oy = one_part y in
      let u1 = mul_bound u (2 * r + 1) 1 (2 * r + 1) hu (omega arith) in
      let u2 = mul_bound u r 1 r hu (omega arith) in
      let v1 = mul_bound v r 1 r hv (omega arith) in
      let v2 = mul_bound v (r + 1) 1 (r + 1) hv (omega arith) in
      ((omega arith, omega arith), (omega arith, omega arith))

  -- One of the four candidates is near enough.
  pub some_corner :
      IsNear r c (i0 +ℤ pos 0) (j0 +ℤ pos 0)
      ⊎ IsNear r c (i0 +ℤ pos 0) (j0 +ℤ pos 1)
      ⊎ IsNear r c (i0 +ℤ pos 1) (j0 +ℤ pos 0)
      ⊎ IsNear r c (i0 +ℤ pos 1) (j0 +ℤ pos 1)
  some_corner =
      let d = lower_corner in
      elim (covered r d.a d.b (pos_part (shift_q r c i0 j0)) (neg_part (shift_q r c i0 j0))
        (pos_part (shift_r r c i0 j0)) (neg_part (shift_r r c i0 j0)) d.a_lt d.b_lt d.along_q
        d.along_r) [
          | inl h ↦ inl (
              near 0 0 (omega arith) (omega arith) (omega arith) (omega arith) (omega arith)
                (omega arith))
          | inr (inl h) ↦ inr (
              inl (
                near 0 1 (omega arith) (omega arith) (omega arith) (omega arith) (omega arith)
                  (omega arith)))
          | inr (inr (inl h)) ↦ inr (
              inr (
                inl (
                  near 1 0 (omega arith) (omega arith) (omega arith) (omega arith) (omega arith)
                    (omega arith))))
          | inr (inr (inr h)) ↦ inr (
              inr (
                inr (
                  near 1 1 (omega arith) (omega arith) (omega arith) (omega arith) (omega arith)
                    (omega arith))))
        ]
