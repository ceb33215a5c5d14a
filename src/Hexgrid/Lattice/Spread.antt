-- ===== src/Hexgrid/Lattice/Spread.antt =====
-- About the centres of distant chunks, internal/hexgrid/lattice.go.
use Prim.Native.Nat.{max}
use lab_game.Prelude.{inl, inr, lt_cases, ℕ, ◌+◌, ◌*◌, ◌^◌, ◌≤◌, ◌<◌, ◌≡◌, sym, ap, ◌∙◌, arith}
use lab_game.Prelude.Int.{
  ℤ, pos, negsuc, pos_part, neg_part, ◌+ℤ◌, ◌-ℤ◌, +ℤ_parts, -ℤ_parts, IsInt32, wrap32_self,
}
use lab_game.Hexgrid.Coord.{Coord, Chunk, distance, InRange, coord_ext}
use lab_game.Hexgrid.Coord.Metric.{norm, distance_lem}
use lab_game.Hexgrid.Lattice.{center_q, center_r, center, locate}
use lab_game.Hexgrid.Lattice.Cover.{cells}
use lab_game.Hexgrid.Lattice.Center.{center_q_parts, center_r_parts}
use lab_game.Hexgrid.Lattice.Corner.{shift_q, shift_r, lattice, IsNear}
use lab_game.Hexgrid.Lattice.Locate.{locate-Finds}
use lab_game.Hexgrid.Lattice.Unique.{place_lem}
use lab_game.Hexgrid.Lattice.Unique.{mul_mono}

-- Displacements of cells to displacements of chunks.
module _ (r w kp kn lp ln : ℕ)
    (x : (kp * (2 * r + 1) + lp * r ≤ kn * (2 * r + 1) + ln * r + w)
      × (kn * (2 * r + 1) + ln * r ≤ kp * (2 * r + 1) + lp * r + w))
    (y : (kn * r + lp * (r + 1) ≤ kp * r + ln * (r + 1) + w)
      × (kp * r + ln * (r + 1) ≤ kn * r + lp * (r + 1) + w))
    (s : (kp * (r + 1) + lp * (2 * r + 1) ≤ kn * (r + 1) + ln * (2 * r + 1) + w)
      × (kn * (r + 1) + ln * (2 * r + 1) ≤ kp * (r + 1) + lp * (2 * r + 1) + w)) where
  spread :
      (cells r * kp ≤ cells r * kn + (2 * r + 1) * w)
      × (cells r * kn ≤ cells r * kp + (2 * r + 1) * w)
      × (cells r * lp ≤ cells r * ln + (2 * r + 1) * w)
      × (cells r * ln ≤ cells r * lp + (2 * r + 1) * w)
      × (cells r * (kp + lp) ≤ cells r * (kn + ln) + (2 * r + 1) * w)
      × (cells r * (kn + ln) ≤ cells r * (kp + lp) + (2 * r + 1) * w)
  spread =
      let a = mul_mono r _ _ x.0 in
      let b = mul_mono r _ _ x.1 in
      let c = mul_mono r _ _ y.0 in
      let d = mul_mono r _ _ y.1 in
      let e = mul_mono r _ _ s.0 in
      let f = mul_mono r _ _ s.1 in
      (omega arith, omega arith, omega arith, omega arith, omega arith, omega arith)

max_mul : (n a b m : ℕ) → n * a ≤ m → n * b ≤ m → n * max a b ≤ m
max_mul n a b m h g = elim (lt_cases a b) [
  | inl lt ↦ let e : max a b ≡ b = omega arith in rw e g
  | inr le ↦ let e : max a b ≡ a = omega arith in rw e h
]

size_mul :
    (n m : ℕ) (u : ℤ)
    → n * pos_part u ≤ n * neg_part u + m
    → n * neg_part u ≤ n * pos_part u + m
    → n * (pos_part u + neg_part u) ≤ m
size_mul n m (pos a) h g = omega arith
size_mul n m (negsuc a) h g = omega arith

-- The same for a difference of integers, and for a sum of two.
norm_mul :
    (n m : ℕ) (i k j l : ℤ)
    → (n * (pos_part i + neg_part k) ≤ n * (neg_part i + pos_part k) + m)
      × (n * (neg_part i + pos_part k) ≤ n * (pos_part i + neg_part k) + m)
      × (n * (pos_part j + neg_part l) ≤ n * (neg_part j + pos_part l) + m)
      × (n * (neg_part j + pos_part l) ≤ n * (pos_part j + neg_part l) + m)
      × (n * (pos_part i + neg_part k + (pos_part j + neg_part l))
          ≤ n * (neg_part i + pos_part k + (neg_part j + pos_part l)) + m)
      × (n * (neg_part i + pos_part k + (neg_part j + pos_part l))
          ≤ n * (pos_part i + neg_part k + (pos_part j + neg_part l)) + m)
    → n * norm (i -ℤ k) (j -ℤ l) ≤ m
norm_mul n m i k j l h =
    let a = ap (λ (t : ℕ). n * t) (-ℤ_parts i k) in
    let b = ap (λ (t : ℕ). n * t) (-ℤ_parts j l) in
    let c = ap (λ (t : ℕ). n * t) (+ℤ_parts (i -ℤ k) (j -ℤ l)) in
    max_mul n _ _ m (size_mul n m (i -ℤ k) (omega arith) (omega arith)) (
      max_mul n _ _ m (size_mul n m (j -ℤ l) (omega arith) (omega arith))
        (size_mul n m (i -ℤ k +ℤ (j -ℤ l)) (omega arith) (omega arith)))

-- The centres of two chunks at distance n are so far apart that a cell within r of the one is
-- this far from the other.
module _ (r : ℕ) (c : Coord) (i j k l : ℤ) (near : IsNear r c i j) where
  abbrev far : ℕ
  far = norm (shift_q r c k l) (shift_r r c k l)

  pub shift_spread : cells r * norm (i -ℤ k) (j -ℤ l) ≤ (2 * r + 1) * (far + r)
  shift_spread =
      let q1 = center_q_parts r i j in
      let q2 = center_q_parts r k l in
      let r1 = center_r_parts r i j in
      let r2 = center_r_parts r k l in
      let x1 = -ℤ_parts c.q (center_q (pos r) i j) in
      let x2 = -ℤ_parts c.q (center_q (pos r) k l) in
      let y1 = -ℤ_parts c.r (center_r (pos r) i j) in
      let y2 = -ℤ_parts c.r (center_r (pos r) k l) in
      let z1 = +ℤ_parts (shift_q r c i j) (shift_r r c i j) in
      let z2 = +ℤ_parts (shift_q r c k l) (shift_r r c k l) in
      norm_mul (cells r) ((2 * r + 1) * (far + r)) i k j l (
        spread r (far + r) (pos_part i + neg_part k) (neg_part i + pos_part k)
          (pos_part j + neg_part l) (neg_part j + pos_part l) (omega arith, omega arith)
          (omega arith, omega arith) (omega arith, omega arith))

-- A cell of a chunk at super-lattice distance n from chunk g is at distance d from the centre of g
-- with CellCount * n <= (2r + 1) * (d + r): for a radius below 2^30, where the cell and the centre of g are in int32
-- range.
pub distance-center :
    (r : ℕ) (c : Coord) (g : Chunk) (n d : ℕ)
    → r < 2 ^ 30
    → InRange c
    → IsInt32 (center_q (pos r) g.q g.r) × IsInt32 (center_r (pos r) g.q g.r)
    → distance (locate (lattice r) c).0 g ≡ pos n
    → distance c (center (lattice r) g) ≡ pos d
    → cells r * n ≤ (2 * r + 1) * (d + r)
unfolding center
distance-center r c g n d hr inside fits en ed =
    let f = locate-Finds r c hr inside in
    let e = f.placed ∙ place_lem r c f.i f.j f.near_enough inside (omega arith) in
    let n' : n ≡ norm (f.i -ℤ g.q) (f.j -ℤ g.r) =
      ap pos_part (sym en ∙ ap (λ (p : Chunk × Coord). distance p.0 g) e ∙ distance_lem _ g) in
    let d' : d ≡ norm (shift_q r c g.q g.r) (shift_r r c g.q g.r) = ap pos_part (
      sym ed
      ∙ ap (distance c) (coord_ext _ _ (wrap32_self _ fits.0) (wrap32_self _ fits.1))
      ∙ distance_lem c _) in
    rw (n', d') (shift_spread r c f.i f.j g.q g.r f.near_enough)
