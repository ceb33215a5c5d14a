-- ===== src/Hexgrid/Lattice/Center.antt =====
-- The centres and the estimates of Locate as sums of natural numbers, for a radius that is not
-- negative.
use lab_game.Prelude.{
  ℕ, zero, suc, ◌+◌, ◌-◌, ◌*◌, ◌/◌, ◌%◌, ◌^◌, ◌<◌, ◌≤◌, ◌∙◌, ◌≡◌, refl, ap, true, not, ◌&&◌,
  if◌then◌else◌, arith,
}
use lab_game.Prelude.Int.{
  ℤ, pos, negsuc, pos_part, neg_part, ◌+ℤ◌, ◌-ℤ◌, ◌*ℤ◌, neg_ℤ, +ℤ_parts, -ℤ_parts, *ℤ_parts,
  -ℤ_parts, add_pos, mul_pos, neg_ℤ_parts, neg_of, eqb_ℤ, ltb_ℤ, one_part, wrap64, wrap64_self,
  IsInt32, IsInt64, mul_bound,
}
use lab_game.Hexgrid.Coord.{Coord, InRange}
use lab_game.Hexgrid.Lattice.{cell_count, center_q, center_r, floor_div64, bool_ne, i_star, j_star}
use lab_game.Hexgrid.Lattice.Cover.{cells}

pub cell_count_lem : (r : ℕ) → r < 2 ^ 30 → cell_count (record { radius = pos r }) ≡ pos (cells r)
unfolding cell_count
cell_count_lem r h =
    let sum : pos 3 *ℤ pos r *ℤ pos r +ℤ pos 3 *ℤ pos r +ℤ pos 1 ≡ pos (cells r) =
      simp (add_pos, mul_pos) (ap pos (omega arith)) in
    let small = mul_bound r r (2 ^ 30 - 1) (2 ^ 30 - 1) (omega arith) (omega arith) in
    ap wrap64 sum ∙ wrap64_self (pos (cells r)) (omega arith, omega arith)

-- A product with a coordinate of a cell, by its parts.
product_bound :
    (m n : ℕ) (a : ℤ)
    → m ≤ n
    → IsInt32 a
    → (m * pos_part a ≤ n * 2 ^ 31) × (m * neg_part a ≤ n * 2 ^ 31)
product_bound m n a h i = (
  mul_bound m (pos_part a) n (2 ^ 31) h (omega arith),
  mul_bound m (neg_part a) n (2 ^ 31) h (omega arith),
)

test_neg :
    (m b : ℕ)
    → (not (eqb_ℤ (negsuc m) (pos 0))
        && bool_ne (ltb_ℤ (negsuc m) (pos 0)) (ltb_ℤ (pos (suc b)) (pos 0)))
      ≡ true
test_neg m b = ground arith

negsuc-minus-one : (q : ℕ) → negsuc q -ℤ pos 1 ≡ negsuc (suc q)
unfolding ◌-ℤ◌
negsuc-minus-one q = ground arith

zero-minus-one : pos 0 -ℤ pos 1 ≡ negsuc 0
unfolding ◌-ℤ◌
zero-minus-one = refl

-- floor(-n / b) from the truncated quotient and the remainder of n.
floor_neg :
    (n b m q : ℕ)
    → n ≡ suc b * q + m
    → m < suc b
    → let f =
        if not (eqb_ℤ (neg_of m) (pos 0))
          && bool_ne (ltb_ℤ (neg_of m) (pos 0)) (ltb_ℤ (pos (suc b)) (pos 0))
        then neg_of q -ℤ pos 1
        else neg_of q in
      (k : ℕ) × (k < suc b) × (0 + neg_part f * suc b ≡ n + pos_part f * suc b + k)
floor_neg n b zero zero e h = (0, omega arith, ground arith)
floor_neg n b zero (suc q) e h = (0, omega arith, ground arith)
floor_neg n b (suc m) zero e h =
    (b - m, omega arith, rw (test_neg m b, zero-minus-one) (omega arith))
floor_neg n b (suc m) (suc q) e h =
    (b - m, omega arith, rw (test_neg m b, negsuc-minus-one q) (omega arith))

-- floor(a / b) with its remainder.
pub floor_div64_lem :
    (a : ℤ) (b : ℕ)
    → let f = floor_div64 a (pos (suc b)) in
      (m : ℕ) × (m < suc b)
      × (pos_part a + neg_part f * suc b ≡ neg_part a + pos_part f * suc b + m)
unfolding floor_div64
floor_div64_lem (pos n) b = (n % suc b, omega arith, ground arith)
floor_div64_lem (negsuc n) b =
    floor_neg (suc n) b (suc n % suc b) (suc n / suc b) (omega arith) (omega arith)

module _ (r : ℕ) (i j : ℤ) where
  pub center_q_parts :
      pos_part (center_q (pos r) i j) + neg_part i * (2 * r + 1) + neg_part j * r
      ≡ neg_part (center_q (pos r) i j) + pos_part i * (2 * r + 1) + pos_part j * r
  center_q_parts =
      rw (mul_pos 2 r, add_pos (2 * r) 1)
        (omega (
          arith,
          +ℤ_parts (i *ℤ pos (2 * r + 1)) (j *ℤ pos r),
          *ℤ_parts i (pos (2 * r + 1)),
          *ℤ_parts j (pos r),
        ))

  pub center_r_parts :
      pos_part (center_r (pos r) i j) + pos_part i * r + neg_part j * (r + 1)
      ≡ neg_part (center_r (pos r) i j) + neg_part i * r + pos_part j * (r + 1)
  center_r_parts = rw (add_pos r 1) (
      omega (
        arith,
        +ℤ_parts (neg_ℤ i *ℤ pos r) (j *ℤ pos (r + 1)),
        *ℤ_parts (neg_ℤ i) (pos r),
        *ℤ_parts j (pos (r + 1)),
        ap (λ (t : ℕ). t * r) (neg_ℤ_parts i),
      ))

-- The estimate of Locate in each direction is a floor: it leaves a remainder below the cell count.
module _ (r : ℕ) (c : Coord) (hr : r < 2 ^ 30) (inside : InRange c) where
  i_numerator : IsInt64 ((pos (r + 1) *ℤ c.q) -ℤ (pos r *ℤ c.r))
  i_numerator =
      let n = (pos (r + 1) *ℤ c.q) -ℤ (pos r *ℤ c.r) in
      let a = product_bound (r + 1) (2 ^ 30) c.q (omega arith) inside.0 in
      let b = product_bound r (2 ^ 30) c.r (omega arith) inside.1 in
      let s = -ℤ_parts (pos (r + 1) *ℤ c.q) (pos r *ℤ c.r) in
      let p = *ℤ_parts (pos (r + 1)) c.q in
      let q = *ℤ_parts (pos r) c.r in let o = one_part n in (omega arith, omega arith)

  j_numerator : IsInt64 ((pos r *ℤ c.q) +ℤ (pos (2 * r + 1) *ℤ c.r))
  j_numerator =
      let n = (pos r *ℤ c.q) +ℤ (pos (2 * r + 1) *ℤ c.r) in
      let a = product_bound r (2 ^ 30) c.q (omega arith) inside.0 in
      let b = product_bound (2 * r + 1) (2 ^ 31) c.r (omega arith) inside.1 in
      let s = +ℤ_parts (pos r *ℤ c.q) (pos (2 * r + 1) *ℤ c.r) in
      let p = *ℤ_parts (pos r) c.q in
      let q = *ℤ_parts (pos (2 * r + 1)) c.r in let o = one_part n in (omega arith, omega arith)

  pub i_star_lem :
      let i = i_star (record { radius = pos r }) c in
      (a : ℕ) × (a < cells r)
      × ((r + 1) * pos_part c.q + r * neg_part c.r + neg_part i * cells r
          ≡ (r + 1) * neg_part c.q + r * pos_part c.r + pos_part i * cells r + a)
  i_star_lem =
      let n = (pos (r + 1) *ℤ c.q) -ℤ (pos r *ℤ c.r) in
      let (m, lt, e) = floor_div64_lem n (3 * r * r + 3 * r) in
      (
        m,
        lt,
        rw (add_pos r 1, cell_count_lem r hr, wrap64_self n i_numerator)
            (omega (
              arith,
              -ℤ_parts (pos (r + 1) *ℤ c.q) (pos r *ℤ c.r),
              *ℤ_parts (pos (r + 1)) c.q,
              *ℤ_parts (pos r) c.r,
            )),
      )

  pub j_star_lem :
      let j = j_star (record { radius = pos r }) c in
      (b : ℕ) × (b < cells r)
      × (r * pos_part c.q + (2 * r + 1) * pos_part c.r + neg_part j * cells r
          ≡ r * neg_part c.q + (2 * r + 1) * neg_part c.r + pos_part j * cells r + b)
  j_star_lem =
      let n = (pos r *ℤ c.q) +ℤ (pos (2 * r + 1) *ℤ c.r) in
      let (m, lt, e) = floor_div64_lem n (3 * r * r + 3 * r) in
      (
        m,
        lt,
        rw (mul_pos 2 r, add_pos (2 * r) 1, cell_count_lem r hr, wrap64_self n j_numerator)
            (omega (
              arith,
              +ℤ_parts (pos r *ℤ c.q) (pos (2 * r + 1) *ℤ c.r),
              *ℤ_parts (pos (2 * r + 1)) c.r,
              *ℤ_parts (pos r) c.q,
            )),
      )
